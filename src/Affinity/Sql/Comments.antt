-- ===== src/Affinity/Sql/Comments.antt =====
-- `_skip_leading_comments` of django_rls_tenants/tenants/affinity.py. The outer loop has fuel; it
-- shortens its text in every round, so that the length of the text and one more is enough.
mod Leading
mod Rounds
mod Tests
use django_rls_tenants.Base.Core.{ℕ, zero, suc, Option, [], ◌∷◌, ◌&&◌, ◌==◌, if◌then◌else◌}
use django_rls_tenants.Base.Text.{Text, length, lstrip}

abbrev pub dash : ℕ
dash = b'-'

abbrev pub slash : ℕ
slash = b'/'

abbrev pub star : ℕ
star = b'*'

-- What is behind the first newline, `""` where there is none: `end` and `text[end + 1 :]`.
unfoldable pub after_line : Text → Text
after_line [] = []
after_line (c ∷ s) = if c == b'\n' then s else after_line s

-- The inner loop: the text at `index`, with `depth` comments open.
unfoldable pub skip_block : ℕ → Text → Text
skip_block zero s = s
skip_block (suc d) [] = []
skip_block (suc d) (a ∷ []) = []
skip_block (suc d) (a ∷ b ∷ s) =
    let deeper = skip_block (suc (suc d)) s in
    let shallower = skip_block d s in
    let on = skip_block (suc d) (b ∷ s) in
    if a == slash && b == star then deeper else if a == star && b == slash then shallower else on

-- One round of the outer loop on a text that has been stripped; `none` where its test fails.
unfoldable pub skip_one : Text → Option Text
unfolding after_line skip_block lstrip
skip_one (a ∷ b ∷ s) =
    if a == dash && b == dash
    then Option.some (lstrip (after_line (b ∷ s)))
    else if a == slash && b == star
    then Option.some (lstrip (skip_block 1 s))
    else Option.none
skip_one _ = Option.none

unfoldable pub skip_comments : ℕ → Text → Text
unfolding skip_one
skip_comments zero text = text
skip_comments (suc fuel) text = elim (skip_one text) [
  | Option.none ↦ text
  | Option.some rest ↦ skip_comments fuel rest
]

unfoldable pub skip_leading_comments : Text → Text
unfolding skip_comments lstrip
skip_leading_comments sql = skip_comments (suc (length sql)) (lstrip sql)
