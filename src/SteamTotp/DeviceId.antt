-- ===== src/SteamTotp/DeviceId.antt =====
-- steamtotp/steamtotp.go: the form of a device ID.
use steamstacks.Prelude.{
  ℕ, zero, suc, ◌+◌, ◌*◌, ◌-◌, ◌≤◌, ◌≡◌, refl, sym, ap, ◌∙◌, [], ◌∷◌, ◌++◌, arith, length, take,
  length-take, length-drop, length-append, append_assoc,
}
use steamstacks.Prelude.Bytes.{Bytes, slice}
use steamstacks.Prelude.Decimal.{format_uint}
use steamstacks.SteamTotp.{Library, hex, dash, android, get_device_id}

length-hex : (b : Bytes) → length (hex b) ≡ 2 * length b
unfolding hex
length-hex [] = refl
length-hex (b ∷ bs) = omega (arith, length-hex bs)

-- What is before `lo` and what is from there to `hi` make up what is before `hi`.
take-slice : (b : Bytes) (lo hi : ℕ) → lo ≤ hi → take lo b ++ slice b lo hi ≡ take hi b
take-slice b zero hi h = refl
take-slice b (suc lo) zero h = absurd (omega arith)
take-slice [] (suc lo) (suc hi) h = refl
take-slice (x ∷ xs) (suc lo) (suc hi) h =
    ap (λ (t : Bytes). x ∷ t) (take-slice xs lo hi (omega arith))

length-slice : (b : Bytes) (lo hi : ℕ) → hi ≤ length b → length (slice b lo hi) ≡ hi - lo
length-slice b lo hi h = omega (arith, length-drop lo (take hi b), length-take hi b)

-- Five groups with a dash between them.
grouped :
    (a b c d e : Bytes)
    → length (a ++ (dash ++ (b ++ (dash ++ (c ++ (dash ++ (d ++ (dash ++ e))))))))
      ≡ 4 + (length a + (length b + (length c + (length d + length e))))
grouped a b c d e = omega (
  arith,
  length-append a (dash ++ (b ++ (dash ++ (c ++ (dash ++ (d ++ (dash ++ e))))))),
  length-append b (dash ++ (c ++ (dash ++ (d ++ (dash ++ e))))),
  length-append c (dash ++ (d ++ (dash ++ e))),
  length-append d (dash ++ e),
)

-- If SHA1 gives 20 bytes, a device ID is "android:" and five groups with a dash between them, 44
-- characters in all, and the groups together are the first 32 hexadecimal digits of the SHA1 of
-- the decimal ID.
pub get_device_id-groups :
    (lib : Library) (steam_id64 : ℕ)
    → ((b : Bytes) → length (lib.sha1 b) ≡ 20)
    → (g1 g2 g3 g4 g5 : Bytes) × (get_device_id lib steam_id64
        ≡ android ++ (g1 ++ (dash ++ (g2 ++ (dash ++ (g3 ++ (dash ++ (g4 ++ (dash ++ g5)))))))))
      × (g1 ++ (g2 ++ (g3 ++ (g4 ++ g5))) ≡ take 32 (hex (lib.sha1 (format_uint steam_id64))))
      × (length (get_device_id lib steam_id64) ≡ 44)
unfolding get_device_id
get_device_id-groups lib steam_id64 h =
    (take 8 s, slice s 8 12, slice s 12 16, slice s 16 20, slice s 20 32, refl, joined, measured)
  where
    s : Bytes
    s = hex (lib.sha1 (format_uint steam_id64))

    joined :
        take 8 s ++ (slice s 8 12 ++ (slice s 12 16 ++ (slice s 16 20 ++ slice s 20 32)))
        ≡ take 32 s
    joined =
        sym (append_assoc (take 8 s) (slice s 8 12) _)
        ∙ rw (take-slice s 8 12 (omega arith)) (
            sym (append_assoc (take 12 s) (slice s 12 16) _)
            ∙ rw (take-slice s 12 16 (omega arith)) (
                sym (append_assoc (take 16 s) (slice s 16 20) _)
                ∙ rw (take-slice s 16 20 (omega arith)) (take-slice s 20 32 (omega arith))))

    width : length s ≡ 40
    width =
        omega (arith, length-hex (lib.sha1 (format_uint steam_id64)), h (format_uint steam_id64))

    measured : length (get_device_id lib steam_id64) ≡ 44
    measured = omega (
      arith,
      grouped (take 8 s) (slice s 8 12) (slice s 12 16) (slice s 16 20) (slice s 20 32),
      length-take 8 s,
      width,
      length-slice s 8 12 (omega (arith, width)),
      length-slice s 12 16 (omega (arith, width)),
      length-slice s 16 20 (omega (arith, width)),
      length-slice s 20 32 (omega (arith, width)),
    )
