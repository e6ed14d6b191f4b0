-- ===== src/Affinity/Sql.antt =====
-- How the guard reads a statement (django_rls_tenants/tenants/affinity.py): its command, its words,
-- whether more follows a semicolon, and what that says of transactions. A statement is a text
-- or bytes, a composable that the driver renders (or fails to), or something else.
pub mod Comments
use django_rls_tenants.Base.Core.{
  ℕ, suc, ◌+◌, Bool, true, false, not, ◌&&◌, ◌||◌, Option, none, some, List, [], ◌∷◌, map, ltb,
  ◌==◌, if◌then◌else◌,
}
use django_rls_tenants.Base.Text.{
  Text, codes, length, text_eq, text_in, is_empty, lstrip, split, upper, ascii_lower, lstrip_chars,
  rstrip_chars, from_char, take, drop,
}
use mathlib.Core.List.{reverse}
use Comments.{skip_leading_comments}

pub record Statement : Type 0 where
  pub command : Text
  pub words : List Text
  pub compound : Bool

-- `sql` as `execute` receives it. `composable` is an object with `as_string`: the text it renders
-- to, if it can be rendered. Bytes are read as Latin-1, so they are code points already.
pub data Sql : Type 0 where
  text bytes : Text → Sql
  composable : Option Text → Sql
  other : Sql

abbrev pub transaction_control : List Text
transaction_control = map codes (
    "ABORT" ∷ "BEGIN" ∷ "COMMIT" ∷ "END" ∷ "PREPARE" ∷ "RELEASE" ∷ "ROLLBACK" ∷ "SAVEPOINT"
    ∷ "START" ∷ [])

abbrev pub followed : List Text
followed = codes "DISCARD" ∷ codes "RESET" ∷ transaction_control

abbrev pub no_transaction_commands : List Text
no_transaction_commands = map codes ("CLUSTER" ∷ "DISCARD" ∷ "REINDEX" ∷ "VACUUM" ∷ [])

abbrev pub no_transaction_objects : List Text
no_transaction_objects = map codes ("DATABASE" ∷ "SUBSCRIPTION" ∷ "SYSTEM" ∷ "TABLESPACE" ∷ [])

abbrev pub ddl_commands : List Text
ddl_commands = map codes ("ALTER" ∷ "CREATE" ∷ "DROP" ∷ [])

abbrev pub sql_head : ℕ
sql_head = 256

abbrev pub is_semicolon : ℕ → Bool
is_semicolon c = c == b';'

-- `"; \t\r\n"`
abbrev pub is_filler : ℕ → Bool
is_filler c = c == b';' || c == 32 || c == 9 || c == 13 || c == 10

-- `str(sql)` as far as the guard can read it.
unfoldable pub readable : Sql → Option Text
readable (text s) = some s
readable (bytes s) = some s
readable (composable rendered) = rendered
readable other = none

-- `semicolon >= 0 and bool(sql[semicolon:].strip("; \t\r\n"))`
unfoldable pub is_compound : Text → Bool
unfolding from_char lstrip_chars rstrip_chars
is_compound sql = elim (from_char b';' sql) [
  | none ↦ false
  | some rest ↦ not (is_empty (rstrip_chars is_filler (lstrip_chars is_filler rest)))
]

-- The head of the text behind its leading comments.
unfoldable pub statement_head : Text → Text
unfolding skip_leading_comments
statement_head sql =
    let head = skip_leading_comments (take sql_head sql) in
    let whole = take sql_head (skip_leading_comments sql) in
    if is_empty head && ltb sql_head (length sql) then whole else head

unfoldable pub parse_words : Text → List Text → Option Statement
unfolding is_compound rstrip_chars upper lstrip
parse_words sql [] =
    if is_empty (lstrip sql)
    then some (record { command = []; words = []; compound = false })
    else none
parse_words sql (w ∷ ws) = some (record {
  command = upper (rstrip_chars is_semicolon w);
  words = w ∷ ws;
  compound = is_compound sql;
})

unfoldable pub parse : Sql → Option Statement
unfolding readable statement_head parse_words split
parse sql = elim (readable sql) [ none ↦ none | some s ↦ parse_words s (split (statement_head s)) ]

unfoldable pub controls_the_transaction : Option Statement → Bool
unfolding text_in upper text_eq
controls_the_transaction none = false
controls_the_transaction (some st) =
    if st.compound
    then false
    else if text_in st.command transaction_control
    then true
    else text_eq st.command (codes "SET") && following (map upper (take 1 (drop 1 st.words)))
  where
    following : List Text → Bool
    following (w ∷ []) = text_eq w (codes "TRANSACTION")
    following _ = false

-- `command.split("(", 1)[0]`
unfoldable pub before_paren : Text → Text
before_paren [] = []
before_paren (c ∷ s) = if c == b'(' then [] else c ∷ before_paren s

-- `words[: len(pattern)] == pattern`
unfoldable pub begins_with : List Text → List Text → Bool
unfolding text_eq
begins_with words [] = true
begins_with [] (p ∷ ps) = false
begins_with (w ∷ words) (p ∷ ps) = text_eq w p && begins_with words ps

-- The words behind the first `w`, if there is one.
unfoldable pub behind : Text → List Text → Option (List Text)
unfolding text_eq
behind w [] = none
behind w (x ∷ xs) = if text_eq x w then some xs else behind w xs

-- `words[detach + 1 : detach + 4 : 2] == ["PARTITION", "CONCURRENTLY"]`
unfoldable pub detaches_concurrently : List Text → Bool
unfolding text_eq
detaches_concurrently (a ∷ b ∷ c ∷ _) =
    text_eq a (codes "PARTITION") && text_eq c (codes "CONCURRENTLY")
detaches_concurrently _ = false

unfoldable pub refused_ddl : Text → List Text → Bool
unfolding begins_with behind detaches_concurrently text_in text_eq
refused_ddl command words =
    if first_in words
    then true
    else if not (text_eq command (codes "ALTER"))
    then begins_with words (codes "INDEX" ∷ codes "CONCURRENTLY" ∷ [])
      || begins_with words (codes "UNIQUE" ∷ codes "INDEX" ∷ codes "CONCURRENTLY" ∷ [])
    else (elim (behind (codes "DETACH") words) [
      | none ↦ false
      | some rest ↦ detaches_concurrently rest
    ])
  where
    first_in : List Text → Bool
    first_in [] = false
    first_in (w ∷ _) = text_in w no_transaction_objects

unfoldable pub refused_in_a_transaction : Option Statement → Bool
unfolding before_paren refused_ddl rstrip_chars upper text_in
refused_in_a_transaction none = false
refused_in_a_transaction (some st) =
    let command = before_paren st.command in
    if text_in command ddl_commands
    then refused_ddl command (map (λ w. upper (rstrip_chars is_semicolon w)) (drop 1 st.words))
    else text_in command no_transaction_commands

-- The characters between the quotes of a quoted identifier, `""` in it read as one quote.
unfoldable pub undouble : Text → Text
undouble (a ∷ b ∷ s) = if a == b'"' && b == b'"' then b'"' ∷ undouble s else a ∷ undouble (b ∷ s)
undouble s = s

-- `word[1:-1]` of a word longer than one that begins and ends with a quote.
unfoldable pub between_quotes : Text → Option Text
between_quotes (a ∷ b ∷ s) = elim (reverse (b ∷ s)) [
  | [] ↦ none
  | z ∷ body ↦ if a == b'"' && z == b'"' then some (reverse body) else none
]
between_quotes _ = none

-- `_identifier`
unfoldable pub identifier : Text → Text
unfolding between_quotes undouble ascii_lower rstrip_chars
identifier word =
    let w = rstrip_chars is_semicolon word in
    elim (between_quotes w) [ none ↦ ascii_lower w | some body ↦ undouble body ]

-- `upper.index(after) + 1`, as the words behind it with their upper-case forms; the source
-- calls it only where `after` is among the words.
unfoldable pub words_behind : Text → List Text → List Text
unfolding text_eq upper
words_behind after [] = []
words_behind after (w ∷ ws) = if text_eq (upper w) after then ws else words_behind after ws

-- The one word that is left, as an identifier.
unfoldable pub only_name : List Text → Option Text
unfolding identifier
only_name (w ∷ []) = some (identifier w)
only_name _ = none

unfoldable pub savepoint_name : List Text → Text → Option Text
unfolding words_behind only_name
savepoint_name words after = named (words_behind after words)
  where
    named : List Text → Option Text
    named [] = only_name []
    named (w ∷ ws) =
        if not (text_eq after (codes "SAVEPOINT")) && text_eq (upper w) (codes "SAVEPOINT")
        then only_name ws
        else only_name (w ∷ ws)
