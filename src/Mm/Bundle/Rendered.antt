-- ===== src/Mm/Bundle/Rendered.antt =====
-- The rendered bundle against the text that it is cut from.
use mathlib.Core.List.{append_assoc, append-nil}
use modelo_man.Base.{
  ℕ, ◌+◌, ◌≤◌, List, [], ◌∷◌, ◌++◌, ◌≡◌, refl, sym, subst, ◌⊎◌, inl, inr, length, take,
  length-append, length-take-le, arith, Bytes, utf8,
}
use modelo_man.Mm.Bundle.{
  Buffer, marker, append_each, append_hits, Contents, item_lines, metadata_texts, git_texts, Parts,
  render_bundle,
}
use modelo_man.Mm.Bundle.Cut.{
  join, files_text, StandsFor, append_limited-StandsFor, append_each-StandsFor,
  append_until-StandsFor, append_files-StandsFor,
}

-- `out` is the whole text, where that is within the limit, and is its first bytes up to the limit
-- otherwise, with the marker behind them or not.
abbrev pub IsCut : ℕ → Bytes → Bytes → Type 0
IsCut max full out =
    ((length full ≤ max) × (out ≡ full))
    ⊎ ((max ≤ length full)
        × (end : Bytes) × ((end ≡ []) ⊎ (end ≡ marker))
        × (out ≡ take max full ++ end))

-- The section of the hits, where there are hits.
hits_text : List Bytes → Bytes
unfolding utf8
hits_text [] = []
hits_text (hit ∷ hits) = utf8 "\n## Prompt Symbol Grep Hits\n" ++ join (item_lines (hit ∷ hits))

-- The text of a bundle without a limit: its sections one after the other.
pub full_bundle : (Bytes → Contents) → Parts → Bytes
unfolding utf8
full_bundle read p =
    join (metadata_texts p.meta)
    ++ join (item_lines p.selected)
    ++ utf8 "\n## Tree Outline\n"
    ++ join (item_lines p.tree)
    ++ join (git_texts p.git_status p.git_diff)
    ++ hits_text p.symbol_hits
    ++ utf8 "\n## Selected File Contents\n"
    ++ files_text p.max_file_bytes read p.selected

append_hits-StandsFor :
    (max : ℕ) (hits : List Bytes) (full : Bytes) (b : Buffer)
    → StandsFor max full b
    → StandsFor max (full ++ hits_text hits) (append_hits hits b)
unfolding append_hits append_each hits_text
append_hits-StandsFor max [] full b k = subst (λ t. StandsFor max t b) (sym (append-nil full)) k
append_hits-StandsFor max (hit ∷ hits) full b k =
    subst (λ t. StandsFor max t (append_hits (hit ∷ hits) b)) (append_assoc full _ _)
      (append_until-StandsFor max (item_lines (hit ∷ hits)) _ _
        (append_limited-StandsFor max full (utf8 "\n## Prompt Symbol Grep Hits\n") b k))

StandsFor-IsCut :
    (max : ℕ) (full : Bytes) (b : Buffer) → StandsFor max full b → IsCut max full b.written
StandsFor-IsCut max full b (inl (short, same, _)) = inl (short, same)
StandsFor-IsCut max full b (inr (long, _, end, kind, e)) = inr (long, end, kind, e)

pub render_bundle-IsCut :
    (read : Bytes → Contents) (p : Parts)
    → IsCut p.max_bytes (full_bundle read p) (render_bundle read p)
unfolding render_bundle full_bundle append_each
render_bundle-IsCut read p =
    let max = p.max_bytes in
    let start : Buffer = record { written = []; remaining = max } in
    let k0 : StandsFor max [] start = inl (omega arith, refl, omega arith) in
    let k1 = append_each-StandsFor max (metadata_texts p.meta) [] start k0 in
    let k2 = append_until-StandsFor max (item_lines p.selected) _ _ k1 in
    let k3 = append_limited-StandsFor max _ (utf8 "\n## Tree Outline\n") _ k2 in
    let k4 = append_until-StandsFor max (item_lines p.tree) _ _ k3 in
    let k5 = append_each-StandsFor max (git_texts p.git_status p.git_diff) _ _ k4 in
    let k6 = append_hits-StandsFor max p.symbol_hits _ _ k5 in
    let k7 = append_limited-StandsFor max _ (utf8 "\n## Selected File Contents\n") _ k6 in
    let k8 = append_files-StandsFor max p.max_file_bytes read p.selected _ _ k7 in
    StandsFor-IsCut max _ _ k8

end_bound : (end : Bytes) → (end ≡ []) ⊎ (end ≡ marker) → length end ≤ 24
unfolding marker utf8
end_bound end (inl e) = rw e (omega arith)
end_bound end (inr e) = rw e (omega arith)

IsCut-bound : (max : ℕ) (full out : Bytes) → IsCut max full out → length out ≤ max + 24
IsCut-bound max full out (inl (short, same)) = rw same (omega (arith, short))
IsCut-bound max full out (inr (long, end, kind, e)) =
    let n = length-append (take max full) end in
    let t = length-take-le max full in let m = end_bound end kind in rw e (omega (arith, n, t, m))

-- A rendered bundle is at most 24 bytes longer than its limit.
pub length-render_bundle :
    (read : Bytes → Contents) (p : Parts) → length (render_bundle read p) ≤ p.max_bytes + 24
length-render_bundle read p = IsCut-bound p.max_bytes _ _ (render_bundle-IsCut read p)
