-- ===== src/Mm/Limits.antt =====
-- The limits that `BuildBundle` of internal/mm/context/bundle.go works with, and what they mean for
-- the size of a bundle.
use modelo_man.Base.{
  ℕ, ◌+◌, ◌*◌, ◌/◌, ◌<◌, ◌≤◌, ◌^◌, ℤ, pos, pos_part, ltb_ℤ, ◌+₆₄◌, add_64-pos, ◌&&◌, negsuc, ◌≡◌,
  ap, ◌∙◌, length, Bytes, arith, if◌then◌else◌,
}
use modelo_man.Mm.Bundle.{Contents, Parts, render_bundle}
use modelo_man.Mm.Bundle.Rendered.{length-render_bundle}

-- The numbers of `BuildOptions`.
pub record BuildLimits : Type 0 where
  pub max_bytes : ℤ
  pub token_budget : ℤ
  pub max_tree_lines : ℤ
  pub max_file_bytes : ℤ
  pub max_grep_hits : ℤ
  pub git_diff_budget : ℤ

-- `if x <= 0 { x = d }`.
abbrev pub positive_or : ℤ → ℤ → ℤ
positive_or x d = if ltb_ℤ (pos 0) x then x else d

-- `opts.TokenBudget * 4` on `int64`, as it is doubled twice.
abbrev pub token_bytes : ℤ → ℤ
token_bytes budget = let twice = budget +₆₄ budget in twice +₆₄ twice

-- `opts.MaxBytes` after the two tests.
unfoldable pub bounded_bytes : BuildLimits → ℤ
bounded_bytes o =
    let max = positive_or o.max_bytes (pos 350000) in
    if ltb_ℤ (pos 0) o.token_budget
      && ltb_ℤ (pos 0) (token_bytes o.token_budget)
      && ltb_ℤ (token_bytes o.token_budget) max
    then token_bytes o.token_budget
    else max

-- The first lines of `BuildBundle`.
unfoldable pub with_limits : BuildLimits → BuildLimits
unfolding bounded_bytes
with_limits o = record {
  max_bytes = bounded_bytes o;
  token_budget = o.token_budget;
  max_tree_lines = positive_or o.max_tree_lines (pos 300);
  max_file_bytes = positive_or o.max_file_bytes (pos 64000);
  max_grep_hits = positive_or o.max_grep_hits (pos 20);
  git_diff_budget = positive_or o.git_diff_budget (pos (pos_part (bounded_bytes o) / 3));
}

token_bytes_lem : (n : ℕ) → 4 * n < 2 ^ 63 → token_bytes (pos n) ≡ pos (4 * n)
token_bytes_lem n small =
    let twice = add_64-pos n n (omega (arith, small)) in
    let again = add_64-pos (n + n) (n + n) (omega (arith, small)) in
    let sum : n + n + (n + n) ≡ 4 * n = omega arith in ap (λ t. t +₆₄ t) twice ∙ again ∙ ap pos sum

smaller :
    (n k : ℕ) (m : ℤ)
    → 0 < n
    → 0 < k
    → pos_part
        (if ltb_ℤ (pos 0) (pos n) && ltb_ℤ (pos 0) (pos k) && ltb_ℤ (pos k) m then pos k else m)
      ≤ k
smaller n k (pos m) p q = ground arith
smaller n k (negsuc m) p q = ground arith

bounded :
    (n : ℕ) (o : BuildLimits)
    → o.token_budget ≡ pos n
    → 0 < n
    → 4 * n < 2 ^ 63
    → pos_part (bounded_bytes o) ≤ 4 * n
unfolding bounded_bytes
bounded n o e given small =
    rw (e, token_bytes_lem n small)
      (smaller n (4 * n) (positive_or o.max_bytes (pos 350000)) given (omega (arith, given)))

-- A bundle that is made for a positive budget of tokens, whose quadruple `int64` holds, has at most
-- four bytes for each token and 24 more.
pub length-render_bundle_budget :
    (read : Bytes → Contents) (p : Parts) (o : BuildLimits) (n : ℕ)
    → o.token_budget ≡ pos n
    → 0 < n
    → 4 * n < 2 ^ 63
    → p.max_bytes ≡ pos_part (with_limits o).max_bytes
    → length (render_bundle read p) ≤ 4 * n + 24
unfolding with_limits
length-render_bundle_budget read p o n e given small limit =
    let b = bounded n o e given small in
    let r = length-render_bundle read p in omega (arith, b, r, limit)
