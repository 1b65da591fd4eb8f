-- ===== src/Mm/Bundle/Cut.antt =====
-- What `renderBundle` keeps of the whole text of a bundle.
use mathlib.Core.List.{append_assoc, append-nil}
use modelo_man.Base.{
  ℕ, ◌-◌, ◌≤◌, Bool, true, false, List, [], ◌∷◌, ◌++◌, ◌≡◌, refl, sym, ap, ◌∙◌, subst, ◌⊎◌, inl,
  inr, Bool-cases, leb, leb→le, length, take, length-append, take-append_short, take-append_long,
  arith, Bytes, utf8, if◌then◌else◌,
}
use modelo_man.Mm.Bundle.{
  Buffer, marker, append_limited, append_each, append_until, append_files, Contents,
  read_file_snippet, file_header,
}

unfoldable pub join : List Bytes → Bytes
join [] = []
join (text ∷ texts) = text ++ join texts

-- The two texts of each file.
unfoldable pub files_text : ℕ → (Bytes → Contents) → List Bytes → Bytes
unfolding utf8
files_text max_file read [] = []
files_text max_file read (rel ∷ rels) =
    let (content, truncated) = read_file_snippet max_file (read rel) in
    file_header rel truncated ++ (content ++ utf8 "\n") ++ files_text max_file read rels

abbrev pub IsOpen : ℕ → Bytes → Buffer → Type 0
IsOpen max full b = (length full ≤ max) × (b.written ≡ full) × (b.remaining ≡ max - length full)

abbrev pub IsClosed : ℕ → Bytes → Buffer → Type 0
IsClosed max full b =
    (max ≤ length full)
    × (b.remaining ≡ 0)
    × (end : Bytes) × ((end ≡ []) ⊎ (end ≡ marker))
    × (b.written ≡ take max full ++ end)

-- The buffer stands for the whole text so far.
abbrev pub StandsFor : ℕ → Bytes → Buffer → Type 0
StandsFor max full b = IsOpen max full b ⊎ IsClosed max full b

module _ (max : ℕ) where
  IsClosed-more :
      (full more : Bytes) (b : Buffer) → IsClosed max full b → IsClosed max (full ++ more) b
  IsClosed-more full more b (long, empty, end, kind, e) = (
    (let n = length-append full more in omega (arith, long, n)),
    empty,
    end,
    kind,
    e ∙ ap (λ t. t ++ end) (sym (take-append_short max full more long)),
  )

  -- What follows a full buffer is dropped.
  full-StandsFor :
      (full more : Bytes) (b : Buffer)
      → b.remaining ≡ 0
      → StandsFor max full b
      → StandsFor max (full ++ more) b
  full-StandsFor full more b none_left (inr closed) = inr (IsClosed-more full more b closed)
  full-StandsFor full more b none_left (inl (short, same, left)) =
      let n = length-append full more in
      let exact : max - length full ≡ 0 = sym left ∙ none_left in
      inr (
        omega (arith, n, exact),
        none_left,
        [],
        inl refl,
        same
            ∙ sym (
                append-nil _
                ∙ take-append_long max full more short
                ∙ ap (λ k. full ++ take k more) exact
                ∙ append-nil full),
      )

  pub append_limited-StandsFor :
      (full text : Bytes) (b : Buffer)
      → StandsFor max full b
      → StandsFor max (full ++ text) (append_limited text b).1
  unfolding append_limited
  append_limited-StandsFor full text b (inr closed) =
      let spent : leb b.remaining 0 ≡ true = ground (arith, closed.1) in
      rw spent (inr (IsClosed-more full text b closed))
  append_limited-StandsFor full text b (inl (short, same, left)) =
      elim (Bool-cases (leb b.remaining 0)) [
        | inl e ↦
            let none_left : b.remaining ≡ 0 = ground (arith, e) in
            rw e (full-StandsFor full text b none_left (inl (short, same, left)))
        | inr e ↦ elim (Bool-cases (leb (length text) b.remaining)) [
          | inl f ↦
              let n = length-append full text in
              let fits = leb→le _ _ f in
              rw (e, f)
                (inl (
                  omega (arith, n, fits, left, short),
                  ap (λ w. w ++ text) same,
                  omega (arith, n, fits, left, short),
                ))
          | inr f ↦
              let n = length-append full text in
              let over : b.remaining ≤ length text = ground (arith, f) in
              rw (e, f)
                (inr (
                  omega (arith, n, over, left, short),
                  refl,
                  marker,
                  inr refl,
                  ap (λ t. t ++ marker)
                      (ap (λ w. w ++ take b.remaining text) same
                        ∙ ap (λ k. full ++ take k text) left
                        ∙ sym (take-append_long max full text short)),
                ))
        ]
      ]

  append_limited-full :
      (text : Bytes) (b : Buffer)
      → (append_limited text b).0 ≡ false
      → (append_limited text b).1.remaining ≡ 0
  unfolding append_limited
  append_limited-full text b e = ground arith

  pub append_each-StandsFor :
      (texts : List Bytes) (full : Bytes) (b : Buffer)
      → StandsFor max full b
      → StandsFor max (full ++ join texts) (append_each texts b)
  unfolding append_each join
  append_each-StandsFor [] full b k = subst (λ t. StandsFor max t b) (sym (append-nil full)) k
  append_each-StandsFor (text ∷ texts) full b k =
      subst (λ t. StandsFor max t (append_each (text ∷ texts) b))
        (append_assoc full text (join texts))
        (append_each-StandsFor texts (full ++ text) (append_limited text b).1
          (append_limited-StandsFor full text b k))

  pub append_until-StandsFor :
      (texts : List Bytes) (full : Bytes) (b : Buffer)
      → StandsFor max full b
      → StandsFor max (full ++ join texts) (append_until texts b)
  unfolding append_until join
  append_until-StandsFor [] full b k = subst (λ t. StandsFor max t b) (sym (append-nil full)) k
  append_until-StandsFor (text ∷ texts) full b k =
      let next = append_limited-StandsFor full text b k in
      let b' = (append_limited text b).1 in
      subst (λ t. StandsFor max t (append_until (text ∷ texts) b))
        (append_assoc full text (join texts))
        (elim (Bool-cases (append_limited text b).0) [
          | inl e ↦ rw e (append_until-StandsFor texts (full ++ text) b' next)
          | inr e ↦
              rw e
                (full-StandsFor (full ++ text) (join texts) b' (append_limited-full text b e) next)
        ])

  choose-StandsFor :
      (full : Bytes) (c : Bool) (b b' : Buffer)
      → (c ≡ true → StandsFor max full b)
      → (c ≡ false → StandsFor max full b')
      → StandsFor max full (if c then b else b')
  choose-StandsFor full true b b' k l = k refl
  choose-StandsFor full false b b' k l = l refl

  pub append_files-StandsFor :
      (max_file : ℕ) (read : Bytes → Contents) (rels : List Bytes) (full : Bytes) (b : Buffer)
      → StandsFor max full b
      → StandsFor max (full ++ files_text max_file read rels) (append_files max_file read rels b)
  unfolding append_files files_text
  append_files-StandsFor max_file read [] full b k =
      subst (λ t. StandsFor max t b) (sym (append-nil full)) k
  append_files-StandsFor max_file read (rel ∷ rels) full b k =
      let (content, truncated) = read_file_snippet max_file (read rel) in
      let header = file_header rel truncated in
      let body = content ++ utf8 "\n" in
      let behind = files_text max_file read rels in
      let b' = (append_limited header b).1 in
      let b'' = (append_limited body b').1 in
      let with_header = append_limited-StandsFor full header b k in
      let with_body = append_limited-StandsFor (full ++ header) body b' with_header in
      let regroup : full ++ header ++ body ++ behind ≡ full ++ (header ++ body ++ behind) =
        append_assoc (full ++ header) body behind
        ∙ append_assoc full header (body ++ behind)
        ∙ ap (λ t. full ++ t) (sym (append_assoc header body behind)) in
      let after_header : full ++ header ++ (body ++ behind) ≡ full ++ (header ++ body ++ behind) =
        append_assoc full header (body ++ behind)
        ∙ ap (λ t. full ++ t) (sym (append_assoc header body behind)) in
      let all_text = full ++ (header ++ body ++ behind) in
      choose-StandsFor all_text (leb b.remaining 0) b _
        (λ e. full-StandsFor full (header ++ body ++ behind) b (ground (arith, e)) k)
        (λ _.
          choose-StandsFor all_text (append_limited header b).0 _ b'
            (λ _.
              choose-StandsFor all_text (append_limited body b').0
                (append_files max_file read rels b'') b''
                (λ _.
                  subst (λ t. StandsFor max t (append_files max_file read rels b'')) regroup
                    (append_files-StandsFor max_file read rels (full ++ header ++ body) b''
                      with_body))
                (λ g.
                  subst (λ t. StandsFor max t b'') regroup
                    (full-StandsFor (full ++ header ++ body) behind b''
                      (append_limited-full body b' g) with_body)))
            (λ f.
              subst (λ t. StandsFor max t b') after_header
                (full-StandsFor (full ++ header) (body ++ behind) b'
                  (append_limited-full header b f) with_header)))
