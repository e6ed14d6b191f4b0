-- ===== src/Affinity/Sql/Comments/Tests.antt =====
-- The comments of a statement that Django's `sql_comment` and a nested one stand before.
use django_rls_tenants.Base.Core.{arith, none, ◌≡◌, refl, List, [], ◌∷◌}
use django_rls_tenants.Base.Text.{Text, codes, lstrip, is_space, starts_with}
use django_rls_tenants.Affinity.Sql.Comments.{
  skip_leading_comments, skip_comments, skip_one, skip_block, after_line,
}
use django_rls_tenants.Affinity.Sql.Comments.Rounds.{skip_leading_comments-ends}
use django_rls_tenants.Affinity.Sql.Comments.Leading.{
  Leading, white, line, block, char, inner, closing, printed, printed_item, printed_block, is_block,
  has_no_newline, are_items, skip_leading_comments-printed,
}

abbrev commented : Text
commented = codes " -- route=/notes\n /* a /* nested */ one */ SELECT 1"

uncommented : skip_leading_comments commented ≡ codes "SELECT 1"
unfolding skip_leading_comments skip_comments skip_one skip_block after_line lstrip is_space
uncommented = refl

-- White space, a line comment and a block comment with another inside it.
abbrev leading : List Leading
leading =
    white b' '
    ∷ line (codes " route=/notes")
    ∷ white b' '
    ∷ block (
        char b' '
          (char b'a' (inner (char b'n' closing) (char b' ' (char b'/' (char b'.' closing))))))
    ∷ []

skip_leading_comments-printed_example :
    skip_leading_comments (printed leading (codes "SELECT 1")) ≡ codes "SELECT 1"
unfolding are_items printed printed_item printed_block is_block has_no_newline is_space starts_with
skip_leading_comments-printed_example =
    skip_leading_comments-printed leading (codes "SELECT 1") refl refl

-- A block comment that nothing closes.
skip_leading_comments-ends_example :
    (skip_one (skip_leading_comments (codes "/* x")) ≡ none)
    × (skip_comments 9 (lstrip (codes "/* x")) ≡ skip_leading_comments (codes "/* x"))
skip_leading_comments-ends_example = skip_leading_comments-ends (codes "/* x") 9 (omega arith)
