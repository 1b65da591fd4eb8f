-- ===== src/Mm/Transcript.antt =====
-- `cappedBuffer` of internal/mm/runner/runner.go, which keeps the transcript of a backend. The lock is
-- held during each call and is left out.
use mathlib.Core.List.{append_assoc, append-nil}
use modelo_man.Base.{
  ℕ, ◌-◌, ◌≤◌, ℤ, pos, pos_part, ltb_ℤ, Bool, true, false, List, [], ◌∷◌, ◌++◌, ◌≡◌, refl, sym, ap,
  ◌∙◌, subst, ◌⊎◌, inl, inr, Bool-cases, leb, leb→le, length, take, length-append, length-take_full,
  take-append_short, take-append_long, take_all, arith, Bytes, if◌then◌else◌,
}

-- `newCappedBuffer` makes `max` positive, so the buffer keeps it as a natural number.
pub record CappedBuffer : Type 0 where
  pub max : ℕ
  pub buf : Bytes
  pub truncated : Bool

-- `newCappedBuffer`.
unfoldable pub new_capped_buffer : ℤ → CappedBuffer
new_capped_buffer max = record {
  max = pos_part (if ltb_ℤ (pos 0) max then max else pos 200000);
  buf = [];
  truncated = false;
}

-- `Write`, which always reports all bytes as written.
unfoldable pub write : Bytes → CappedBuffer → CappedBuffer
write p c =
    if leb c.max 0
    then c
    else if leb (c.max - length c.buf) 0
    then record c { truncated = true }
    else if leb (length p) (c.max - length c.buf)
    then record c { buf = c.buf ++ p }
    else record c { buf = c.buf ++ take (c.max - length c.buf) p; truncated = true }

-- The writes of a process, in order.
unfoldable pub write_all : List Bytes → CappedBuffer → CappedBuffer
unfolding write
write_all [] c = c
write_all (p ∷ ps) c = write_all ps (write p c)

-- All that was written.
abbrev pub output : List Bytes → Bytes
output [] = []
output (p ∷ ps) = p ++ output ps

-- The buffer holds the first bytes of `all`, and its mark says on which side of the maximum `all` is.
abbrev pub Holds : ℕ → Bytes → CappedBuffer → Type 0
Holds max all c =
    (c.max ≡ max)
    × (c.buf ≡ take max all)
    × (((c.truncated ≡ false) × (length all ≤ max)) ⊎ ((c.truncated ≡ true) × (max ≤ length all)))

positive_max : (ask : ℤ) → leb (new_capped_buffer ask).max 0 ≡ false
unfolding new_capped_buffer
positive_max ask = ground arith

module _ (max : ℕ) (positive : leb max 0 ≡ false) where
  length-buf :
      (all : Bytes) (c : CappedBuffer)
      → Holds max all c
      → (length c.buf ≤ max)
        × (length c.buf ≤ length all)
        × ((length all ≤ length c.buf) ⊎ (max ≤ length c.buf))
  length-buf all c (cap, kept, inl (_, short)) =
      let n : length c.buf ≡ length all = ap length (kept ∙ take_all max all short) in
      (omega (arith, n, short), omega (arith, n), inl (omega (arith, n)))
  length-buf all c (cap, kept, inr (_, long)) =
      let n : length c.buf ≡ max = ap length kept ∙ length-take_full max all long in
      (omega (arith, n), omega (arith, n, long), inr (omega (arith, n)))

  -- A buffer with room holds all that was written.
  room :
      (all : Bytes) (c : CappedBuffer)
      → Holds max all c
      → leb (c.max - length c.buf) 0 ≡ false
      → (c.truncated ≡ false) × (length all ≤ max) × (c.buf ≡ all)
  room all c (cap, kept, inl (open_, short)) e = (open_, short, kept ∙ take_all max all short)
  room all c (cap, kept, inr (_, long)) e =
      let n : length c.buf ≡ max = ap length kept ∙ length-take_full max all long in
      ground (arith, e, n, cap)

  no_room :
      (all : Bytes) (c : CappedBuffer)
      → Holds max all c
      → leb (c.max - length c.buf) 0 ≡ true
      → max ≤ length all
  no_room all c (cap, kept, inr (_, long)) e = long
  no_room all c (cap, kept, inl (_, short)) e =
      let n : length c.buf ≡ length all = ap length (kept ∙ take_all max all short) in
      ground (arith, e, n, cap)

  write-Holds :
      (all p : Bytes) (c : CappedBuffer) → Holds max all c → Holds max (all ++ p) (write p c)
  unfolding write
  write-Holds all p c k =
      let (cap, kept, _) = k in
      let capped : leb c.max 0 ≡ false = ground (arith, positive, cap) in
      let n = length-append all p in
      elim (Bool-cases (leb (c.max - length c.buf) 0)) [
        | inl e ↦
            let long = no_room all c k e in
            rw (capped, e)
              (
                cap,
                kept ∙ sym (take-append_short max all p long),
                inr (refl, omega (arith, n, long)),
              )
        | inr e ↦
            let (open_, short, same) = room all c k e in
            let m : length c.buf ≡ length all = ap length same in
            elim (Bool-cases (leb (length p) (c.max - length c.buf))) [
              | inl f ↦
                  let fits = leb→le _ _ f in
                  let short' : length (all ++ p) ≤ max = omega (arith, n, m, fits, cap, short) in
                  rw (capped, e, f)
                    (
                      cap,
                      ap (λ b. b ++ p) same ∙ sym (take_all max (all ++ p) short'),
                      inl (open_, short'),
                    )
              | inr f ↦
                  let over : c.max - length c.buf ≤ length p = ground (arith, f) in
                  let left : c.max - length c.buf ≡ max - length all = omega (arith, m, cap) in
                  rw (capped, e, f)
                    (
                      cap,
                      ap (λ b. b ++ take (c.max - length c.buf) p) same
                          ∙ ap (λ d. all ++ take d p) left
                          ∙ sym (take-append_long max all p short),
                      inr (refl, omega (arith, n, over, left, short)),
                    )
            ]
      ]

  write_all-Holds :
      (ps : List Bytes) (all : Bytes) (c : CappedBuffer)
      → Holds max all c
      → Holds max (all ++ output ps) (write_all ps c)
  unfolding write_all
  write_all-Holds [] all c k = subst (λ t. Holds max t c) (sym (append-nil all)) k
  write_all-Holds (p ∷ ps) all c k =
      subst (λ t. Holds max t (write_all ps (write p c))) (append_assoc all p (output ps))
        (write_all-Holds ps (all ++ p) (write p c) (write-Holds all p c k))

-- Whatever a process writes, the buffer holds the first bytes of it, up to its maximum; it is either
-- not marked as truncated, and no more than the maximum was written, or marked, and no less was.
pub write_all_lem :
    (ask : ℤ) (ps : List Bytes)
    → Holds (new_capped_buffer ask).max (output ps) (write_all ps (new_capped_buffer ask))
unfolding new_capped_buffer
write_all_lem ask ps =
    write_all-Holds (new_capped_buffer ask).max (positive_max ask) ps [] (new_capped_buffer ask)
      (refl, sym (take_all _ [] (omega arith)), inl (refl, omega arith))
