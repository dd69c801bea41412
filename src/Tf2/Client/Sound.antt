-- ===== src/Tf2/Client/Sound.antt =====
-- What the handlers of the cache's messages keep: the keys of the cache, and the channels.
pub mod Objects
use steamstacks.Prelude.{
  ℕ, ◌<◌, ◌≡◌, refl, Bool, true, false, not, List, [], ◌∷◌, ◌++◌, Option, none, some, Result, ok,
  err, panic, stuck, ◌==◌, if◌then◌else◌, All,
}
use steamstacks.Prelude.Bytes.{Bytes}
use steamstacks.Tf2.Wire.{Protowire, DecodeError}
use steamstacks.Tf2.Item.{Item, Account, decode_item, decode_account}
use steamstacks.Tf2.Messages.{SubscribedType, SingleObject, decode_single_object}
use steamstacks.Tf2.Cache.{SoCache, new_so_cache, lookup, delete, store, not_loaded}
use steamstacks.Tf2.Cache.Keys.{Keyed, Keyed-empty, insert-Keyed, delete-Keyed}
use steamstacks.Tf2.Client.{
  Event, Client, call, stop_hello, disconnect, backpack_loaded, account_loaded, item_removed,
  account_update,
}
use steamstacks.Tf2.Client.Objects.{
  load_items, subscribe_items, subscribe_account, subscribe_object, subscribe_objects, with_item,
  acquire_item, create_object, change_item, change_account, apply_single_update, remove_item,
  destroy_object, with_object, apply_updates,
}
use steamstacks.Tf2.Client.Hello.{Closed}

-- No channel is closed twice, which would panic.
abbrev pub ClosedOnce : List ℕ → Type 0
ClosedOnce [] = Unit {0}
ClosedOnce (ch ∷ chs) = (Closed ch chs → ⊥) × ClosedOnce chs

-- The channels that are closed were made, each once, and the one in use is a made one that is open.
abbrev pub InUse : Option ℕ → ℕ → List ℕ → Type 0
InUse none made closed = Unit {0}
InUse (some ch) made closed = (ch < made) × (Closed ch closed → ⊥)

abbrev pub Channels : Option ℕ → ℕ → List ℕ → Type 0
Channels hello made closed =
    ClosedOnce closed × All (λ k. k < made) closed × InUse hello made closed

abbrev pub Sound : Client → Type 0
Sound c = Keyed c.cache.items × Channels c.hello_stop c.made c.closed

pub call-Sound : (b : Bool) (e : Event) (c : Client) → Sound c → Sound (call b e c)
call-Sound true e c h = h
call-Sound false e c h = h

pub if_Sound : (b : Bool) (c c' : Client) → Sound c → Sound c' → Sound (if b then c else c')
if_Sound true c c' h k = h
if_Sound false c c' h k = k

stop_hello-Channels :
    (o : Option ℕ) (c : Client)
    → c.hello_stop ≡ o
    → Sound c
    → Sound (elim o [ none ↦ c | some ch ↦ record c { hello_stop = none; closed = ch ∷ c.closed } ])
stop_hello-Channels none c e h = h
stop_hello-Channels (some ch) c e h =
    let used : InUse (some ch) c.made c.closed = rw e at h.1.2 in
    (h.0, ((used.1, h.1.0), (used.0, h.1.1), tt))

pub stop_hello-Sound : (c : Client) → Sound c → Sound (stop_hello c)
stop_hello-Sound c h = stop_hello-Channels c.hello_stop c refl h

pub disconnect-Sound : (c : Client) → Sound c → Sound (disconnect c)
unfolding disconnect
disconnect-Sound c h =
    stop_hello-Sound (record c { is_connected = false; cache = new_so_cache }) (Keyed-empty, h.1)

module _ (w : Protowire) where
  pub with_item-Sound :
      (object : Bytes) (f : Item → Client → Client) (c : Client)
      → ((it : Item) → Sound (f it c))
      → Sound c
      → Sound (with_item w object f c)
  with_item-Sound object f c k h = go (decode_item w object)
    where
      go :
          (r : Result DecodeError Item)
          → Sound (elim r [ ok it ↦ f it c | err e ↦ c | panic ↦ c | stuck ↦ c ])
      go (ok it) = k it
      go (err e) = h
      go panic = h
      go stuck = h

  pub with_object-Sound :
      (body : Bytes) (f : SingleObject → Client → Client) (c : Client)
      → ((so : SingleObject) → Sound (f so c))
      → Sound c
      → Sound (with_object w body f c)
  with_object-Sound body f c k h = go (decode_single_object w body)
    where
      go :
          (r : Result DecodeError SingleObject)
          → Sound (elim r [ ok so ↦ f so c | err e ↦ c | panic ↦ c | stuck ↦ c ])
      go (ok so) = k so
      go (err e) = h
      go panic = h
      go stuck = h
