-- ===== src/Affinity/Sql/Comments/Leading.antt =====
-- What may stand before a statement, as PostgreSQL reads it: white space, `--` comments up to the
-- end of their line and block comments, which nest (`_skip_leading_comments` of
-- django_rls_tenants/tenants/affinity.py).
use django_rls_tenants.Base.Core.{
  ℕ, zero, suc, ◌≡◌, ◌≤◌, ◌<◌, ◌∙◌, ap, refl, Bool, true, not, ◌&&◌, ◌==◌, some, List, [], ◌∷◌,
  ◌++◌, arith, and_parts,
}
use django_rls_tenants.Base.Text.{Text, codes, length, lstrip, is_space, starts_with}
use django_rls_tenants.Affinity.Sql.Comments.{
  after_line, skip_block, skip_one, skip_comments, skip_leading_comments, dash, slash, star,
}

-- A block comment behind its opening: a character, a comment inside it, or its end.
pub data Block : Type 0 where
  closing : Block
  char : ℕ → Block → Block
  inner : Block → Block → Block

pub data Leading : Type 0 where
  white : ℕ → Leading
  line : Text → Leading
  block : Block → Leading

-- The text, with what follows it.
unfoldable pub printed_block : Block → Text → Text
printed_block closing rest = star ∷ slash ∷ rest
printed_block (char c b) rest = c ∷ printed_block b rest
printed_block (inner a b) rest = slash ∷ star ∷ printed_block a (printed_block b rest)

unfoldable pub printed_item : Leading → Text → Text
unfolding printed_block
printed_item (white c) rest = c ∷ rest
printed_item (line t) rest = dash ∷ dash ∷ (t ++ b'\n' ∷ rest)
printed_item (block b) rest = slash ∷ star ∷ printed_block b rest

unfoldable pub printed : List Leading → Text → Text
unfolding printed_item
printed [] rest = rest
printed (i ∷ items) rest = printed_item i (printed items rest)

-- No character of a block comment begins a `/*` or a `*/`.
unfoldable pub is_block : Block → Text → Bool
unfolding printed_block
is_block closing rest = true
is_block (char c b) rest =
    not (starts_with (c ∷ printed_block b rest) (codes "/*"))
    && (not (starts_with (c ∷ printed_block b rest) (codes "*/")) && is_block b rest)
is_block (inner a b) rest = is_block a (printed_block b rest) && is_block b rest

unfoldable pub has_no_newline : Text → Bool
has_no_newline [] = true
has_no_newline (c ∷ t) = not (c == b'\n') && has_no_newline t

abbrev pub is_item : Leading → Text → Bool
is_item (white c) rest = is_space c
is_item (line t) rest = has_no_newline t
is_item (block b) rest = is_block b rest

unfoldable pub are_items : List Leading → Text → Bool
are_items [] rest = true
are_items (i ∷ items) rest = is_item i (printed items rest) && are_items items rest

-- A statement, or nothing: no white space and no comment.
abbrev pub is_statement : Text → Bool
is_statement [] = true
is_statement (c ∷ s) =
    not (is_space c)
    && (not (starts_with (c ∷ s) (codes "--")) && not (starts_with (c ∷ s) (codes "/*")))

skip_block-char :
    (d c : ℕ) (t : Text)
    → not (starts_with (c ∷ t) (codes "/*")) ≡ true
    → not (starts_with (c ∷ t) (codes "*/")) ≡ true
    → skip_block (suc d) (c ∷ t) ≡ skip_block (suc d) t
unfolding skip_block starts_with
skip_block-char d c [] o e = refl
skip_block-char d c (b ∷ s) o e = ground arith

-- One level of nesting is left behind.
skip_block-printed :
    (b : Block) (d : ℕ) (rest : Text)
    → is_block b rest ≡ true
    → skip_block (suc d) (printed_block b rest) ≡ skip_block d rest
unfolding skip_block printed_block is_block
skip_block-printed closing d rest h = refl
skip_block-printed (char c b) d rest h =
    let (o, k) = and_parts _ _ h in
    let (e, m) = and_parts _ _ k in
    skip_block-char d c (printed_block b rest) o e ∙ skip_block-printed b d rest m
skip_block-printed (inner a b) d rest h =
    let (k, m) = and_parts _ _ h in
    skip_block-printed a (suc d) (printed_block b rest) k ∙ skip_block-printed b d rest m

after_line-printed :
    (t rest : Text) → has_no_newline t ≡ true → after_line (t ++ b'\n' ∷ rest) ≡ rest
unfolding after_line has_no_newline
after_line-printed [] rest h = refl
after_line-printed (c ∷ t) rest h =
    let (n, k) = and_parts (not (c == b'\n')) (has_no_newline t) h in
    ground (arith, after_line-printed t rest k)

length-printed_block : (b : Block) (rest : Text) → length rest ≤ length (printed_block b rest)
unfolding printed_block
length-printed_block closing rest = omega arith
length-printed_block (char c b) rest = let h = length-printed_block b rest in omega arith
length-printed_block (inner a b) rest =
    let h = length-printed_block a (printed_block b rest) in
    let k = length-printed_block b rest in omega arith

length-line : (t rest : Text) → length rest ≤ length (t ++ b'\n' ∷ rest)
length-line [] rest = omega arith
length-line (c ∷ t) rest = let h = length-line t rest in omega arith

-- A round that skips a comment, and the rounds after it.
skip_comments-some :
    (fuel : ℕ) (t rest : Text)
    → skip_one t ≡ some rest
    → skip_comments (suc fuel) t ≡ skip_comments fuel rest
unfolding skip_comments
skip_comments-some fuel t rest e = rw (e, skip_comments) refl

statement-kept :
    (fuel : ℕ) (rest : Text)
    → is_statement rest ≡ true
    → skip_comments (suc fuel) (lstrip rest) ≡ rest
unfolding skip_comments skip_one lstrip starts_with
statement-kept fuel [] h = refl
statement-kept fuel (c ∷ []) h = ground arith
statement-kept fuel (c ∷ b ∷ s) h = ground arith

white_skipped : (c : ℕ) (t : Text) → is_space c ≡ true → lstrip (c ∷ t) ≡ lstrip t
unfolding lstrip
white_skipped c t w = rw w refl

line_skipped :
    (t rest : Text)
    → has_no_newline t ≡ true
    → skip_one (lstrip (dash ∷ dash ∷ (t ++ b'\n' ∷ rest))) ≡ some (lstrip rest)
unfolding skip_one lstrip is_space after_line
line_skipped t rest h = ap (λ s. some (lstrip s)) (after_line-printed t rest h)

block_skipped :
    (b : Block) (rest : Text)
    → is_block b rest ≡ true
    → skip_one (lstrip (slash ∷ star ∷ printed_block b rest)) ≡ some (lstrip rest)
unfolding skip_one lstrip is_space skip_block
block_skipped b rest h = ap (λ s. some (lstrip s)) (skip_block-printed b 0 rest h)

skip_comments-printed :
    (items : List Leading) (rest : Text) (fuel : ℕ)
    → are_items items rest ≡ true
    → is_statement rest ≡ true
    → length (printed items rest) < fuel
    → skip_comments fuel (lstrip (printed items rest)) ≡ rest
unfolding printed printed_item are_items
skip_comments-printed items rest zero h s l = absurd (omega arith)
skip_comments-printed [] rest (suc fuel) h s l = statement-kept fuel rest s
skip_comments-printed (white c ∷ items) rest (suc fuel) h s l =
    let (w, k) = and_parts _ _ h in
    ap (skip_comments (suc fuel)) (white_skipped c (printed items rest) w)
    ∙ skip_comments-printed items rest (suc fuel) k s (omega arith)
skip_comments-printed (line t ∷ items) rest (suc fuel) h s l =
    let (w, k) = and_parts _ _ h in
    let n = length-line t (printed items rest) in
    skip_comments-some fuel _ _ (line_skipped t (printed items rest) w)
    ∙ skip_comments-printed items rest fuel k s (omega arith)
skip_comments-printed (block b ∷ items) rest (suc fuel) h s l =
    let (w, k) = and_parts _ _ h in
    let n = length-printed_block b (printed items rest) in
    skip_comments-some fuel _ _ (block_skipped b (printed items rest) w)
    ∙ skip_comments-printed items rest fuel k s (omega arith)

-- For any sequence of white space, comments from -- to the end of their line and block comments
-- nested in any way, with any statement behind it (nothing, or a text that begins with no white
-- space and no comment), _skip_leading_comments leaves exactly the statement.
pub skip_leading_comments-printed :
    (items : List Leading) (rest : Text)
    → are_items items rest ≡ true
    → is_statement rest ≡ true
    → skip_leading_comments (printed items rest) ≡ rest
unfolding skip_leading_comments
skip_leading_comments-printed items rest h s =
    skip_comments-printed items rest (suc (length (printed items rest))) h s (omega arith)
