-- ===== src/Policy/Dollar/Bodies.antt =====
-- The bodies of the policies' `DO` blocks (django_rls_tenants/rls/constraints.py).
use django_rls_tenants.Base.Core.{◌≡◌, refl, List, ◌++◌, inl, inr, Bool-cases}
use django_rls_tenants.Base.Text.{Text, codes}
use django_rls_tenants.Base.Outcome.{returned, Post, post, post_raised}
use django_rls_tenants.Policy.Names.{validate_flags}
use django_rls_tenants.Policy.Create.{
  do_unless_there, enable_and_create, case_sql, using_and_check, or_line, policy_using,
  policy_check, isolation_policy_name, or_predicate, sharing_policy_name,
  sharing_policy_name_problem, sharing_policy_sql, build_sharing_policy_create_sql,
}
use django_rls_tenants.Policy.Predicates.{any_char}
use django_rls_tenants.Policy.Dollar.{
  NoDollar, NoDollar-++, literal, match-NoDollar, flag-NoDollar, NoDollars, more, join-NoDollar,
  flags-NoDollars,
}

case-NoDollar :
    {bypass match : Text} → NoDollar bypass → NoDollar match → NoDollar (case_sql bypass match)
unfolding case_sql any_char
case-NoDollar a b = NoDollar-++ (literal (codes "CASE WHEN ") refl) (
    NoDollar-++ a (
      NoDollar-++
        (literal
          (codes
            "\n                                     THEN true\n                                     ELSE ")
          refl)
        (NoDollar-++ b (literal (codes "\n                                END") refl))))

clauses-NoDollar :
    {using check : Text} → NoDollar using → NoDollar check → NoDollar (using_and_check using check)
unfolding using_and_check any_char
clauses-NoDollar a b =
    NoDollar-++
      (literal (codes "                            USING (\n                                ") refl)
      (NoDollar-++ a (
        NoDollar-++
          (literal
            (codes
              "\n                            )\n                            WITH CHECK (\n                                ")
            refl)
          (NoDollar-++ b (literal (codes "\n                            );\n") refl))))

enable-NoDollar :
    {table name clauses : Text}
    → NoDollar table
    → NoDollar name
    → NoDollar clauses
    → NoDollar (enable_and_create table name clauses)
unfolding enable_and_create any_char
enable-NoDollar t n c =
    NoDollar-++ (literal (codes "                            ALTER TABLE \"") refl) (
      NoDollar-++ t (
        NoDollar-++
          (literal
            (codes "\" ENABLE ROW LEVEL SECURITY;\n                            ALTER TABLE \"")
            refl)
          (NoDollar-++ t (
            NoDollar-++
              (literal
                (codes "\" FORCE ROW LEVEL SECURITY;\n                            CREATE POLICY \"")
                refl)
              (NoDollar-++ n (
                NoDollar-++ (literal (codes "\"\n                            ON \"") refl)
                  (NoDollar-++ t (NoDollar-++ (literal (codes "\"\n") refl) c))))))))

-- `DO` blocks of a table, whose names and bodies hold no dollar sign.
pub data AreBlocks (table : Text) : Text → Type 0 where
  last_block :
      {name body : Text}
      → NoDollar table
      → NoDollar name
      → NoDollar body
      → AreBlocks table (do_unless_there table name body)
  block_and :
      {name body rest : Text}
      → NoDollar table
      → NoDollar name
      → NoDollar body
      → AreBlocks table rest
      → AreBlocks table (do_unless_there table name body ++ rest)

pub isolation_body-NoDollar :
    (table column g_tenant g_admin type : Text) (flags : List Text)
    → NoDollar table
    → NoDollar column
    → NoDollar g_tenant
    → NoDollar g_admin
    → NoDollar type
    → validate_flags flags ≡ returned tt
    → NoDollar (
        enable_and_create table (isolation_policy_name table) (
          using_and_check
            (policy_using column g_tenant g_admin type flags)
            (policy_check column g_tenant g_admin type)))
unfolding policy_using policy_check any_char
isolation_body-NoDollar table column g_tenant g_admin type flags t c g a k h =
    enable-NoDollar t (NoDollar-++ t (literal (codes "_tenant_isolation_policy") refl)) (
      clauses-NoDollar
        (case-NoDollar
          (join-NoDollar (literal or_line refl) (more (flag-NoDollar a) (flags-NoDollars flags h)))
          (match-NoDollar c g k))
        (case-NoDollar (flag-NoDollar a) (match-NoDollar c g k)))

pub sharing-AreBlocks :
    (table : Text) (predicates : List Text)
    → NoDollar table
    → NoDollars predicates
    → Post (AreBlocks table) (build_sharing_policy_create_sql table predicates)
unfolding build_sharing_policy_create_sql sharing_policy_sql any_char
sharing-AreBlocks table predicates t ps = elim (Bool-cases (sharing_policy_name_problem table)) [
  | inl e ↦ rw e post_raised
  | inr e ↦ rw e (
      post (
        last_block t name (
          NoDollar-++ (literal (codes "                            CREATE POLICY \"") refl) (
            NoDollar-++ name (
              NoDollar-++ (literal (codes "\"\n                            ON \"") refl) (
                NoDollar-++ t (
                  NoDollar-++
                    (literal
                      (codes
                        "\"\n                            AS PERMISSIVE\n                            FOR SELECT\n                            USING (\n                                ")
                      refl)
                    (NoDollar-++ (join-NoDollar (literal or_predicate refl) ps)
                      (literal (codes "\n                            );\n") refl)))))))))
]
  where
    name : NoDollar (sharing_policy_name table)
    name = NoDollar-++ t (literal (codes "_tenant_sharing_policy") refl)
