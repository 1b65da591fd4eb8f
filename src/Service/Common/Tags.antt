-- ===== src/Service/Common/Tags.antt =====
-- What `normalizeTags` makes of a list of tags.
use Prim.Native.Char.{Char}
use modelo_man.Base.{
  String, Bool, true, false, not, ◌&&◌, ◌||◌, List, [], ◌∷◌, map, ◌≡◌, refl, ◌==◌, eq_iff, eq_refl,
  contains, HasNoRepeat, arith, ◌∙◌, if◌then◌else◌,
}
use modelo_man.Service.Common.{clean_tag, tags_from, normalize_tags}

-- One round of the loop: what holds of the rest, skipped or taken, holds of the whole.
round_contains :
    (seen skipped taken : List String) (clean k : String) (rest : Bool)
    → contains skipped k ≡ (rest && (not (k == "") && not (contains seen k)))
    → contains taken k ≡ (rest && (not (k == "") && not (clean == k || contains seen k)))
    → contains (if clean == "" || contains seen clean then skipped else clean ∷ taken) k
      ≡ ((clean == k || rest) && (not (k == "") && not (contains seen k)))
round_contains seen skipped taken clean k rest p q =
    ground (arith, eq_iff clean k, eq_iff k "", eq_iff clean "")

round-HasNoRepeat :
    (skip : Bool) (skipped taken : List String) (clean : String)
    → HasNoRepeat skipped
    → HasNoRepeat taken
    → contains taken clean ≡ false
    → HasNoRepeat (if skip then skipped else clean ∷ taken)
round-HasNoRepeat true skipped taken clean p q r = p
round-HasNoRepeat false skipped taken clean p q r = (r, q)

seen_before : (a b c d : Bool) → c ≡ true → (a && (b && not (c || d))) ≡ false
seen_before a b c d e = ground arith

module _ (f : Char → Char) where
  contains-tags_from :
      (seen tags : List String) (k : String)
      → contains (tags_from f seen tags) k
        ≡ (contains (map (clean_tag f) tags) k && (not (k == "") && not (contains seen k)))
  unfolding tags_from
  contains-tags_from seen [] k = refl
  contains-tags_from seen (t ∷ tags) k =
      round_contains seen _ _ (clean_tag f t) k _ (contains-tags_from seen tags k)
        (contains-tags_from (clean_tag f t ∷ seen) tags k)

  tags_from-HasNoRepeat : (seen tags : List String) → HasNoRepeat (tags_from f seen tags)
  unfolding tags_from
  tags_from-HasNoRepeat seen [] = tt
  tags_from-HasNoRepeat seen (t ∷ tags) =
      round-HasNoRepeat _ _ _ (clean_tag f t) (tags_from-HasNoRepeat seen tags)
        (tags_from-HasNoRepeat (clean_tag f t ∷ seen) tags)
        (contains-tags_from (clean_tag f t ∷ seen) tags (clean_tag f t)
          ∙ seen_before _ _ _ _ (eq_refl (clean_tag f t)))

  -- The normalised tags hold no text twice, and hold exactly the texts that are not empty and that
  -- one of the tags becomes when it is trimmed and put in lower case.
  pub normalize_tags_lem :
      (tags : List String)
      → HasNoRepeat (normalize_tags f tags)
        × ((k : String)
            → contains (normalize_tags f tags) k
              ≡ (contains (map (clean_tag f) tags) k && not (k == "")))
  unfolding normalize_tags
  normalize_tags_lem tags =
      (tags_from-HasNoRepeat [] tags, λ k. ground (arith, contains-tags_from [] tags k))
