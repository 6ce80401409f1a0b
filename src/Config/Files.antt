-- ===== src/Config/Files.antt =====
-- What the file of variables does to the environment, `load_env_file` of config.rs.
use mathlib.Core.Path.{subst}
use polyrust.Prelude.{
  ℕ, ◌+◌, ◌≡◌, refl, Bool-cases, inl, inr, none, some, Option-cases, List, [], ◌∷◌, length, arith,
  ◌==◌,
}
use polyrust.Prelude.Text.{Text, trim, text_eq, text_eq→eq}
use polyrust.Prelude.Map.{Map, lookup, insert, lookup-insert}
use polyrust.Prelude.Result.{done}
use polyrust.Prelude.Fallible.{and_run_done}
use polyrust.Config.Launch.{
  Loading, set_entry, set_var, unquoted, load_line, load_lines, load_env_text, split_once, lines,
}

-- Later loading keeps every variable, and counts those that it adds.
abbrev pub Extends : Loading → Loading → Type 0
Extends a b =
    ((k v : Text) → lookup k a.0 ≡ some v → lookup k b.0 ≡ some v)
    × (length b.0 + a.1 ≡ length a.0 + b.1)

Extends-trans : (a b c : Loading) → Extends a b → Extends b c → Extends a c
Extends-trans a b c (keep, count) (keep', count') = (λ k v e. keep' k v (keep k v e), omega arith)

done_injective : (a b : Loading) → done a ≡ done b → a ≡ b
done_injective a b e = ground (arith, e)

length-insert_new :
    (k v : Text) (m : Map Text) → lookup k m ≡ none → length (insert k v m) ≡ length m + 1
unfolding lookup insert
length-insert_new k v [] h = omega arith
length-insert_new k v ((j, w) ∷ m) h = ground (arith, length-insert_new k v m)

set_new-Extends :
    (env env' : Map Text) (n : ℕ) (key value : Text)
    → lookup key env ≡ none
    → set_var env key value ≡ done env'
    → Extends (env, n) (env', n + 1)
set_new-Extends env env' n key value fresh e =
    let made : insert key value env ≡ env' = ground arith in
    subst (λ (m : Map Text). Extends (env, n) (m, n + 1)) made
      (keeps, omega (arith, length-insert_new key value env fresh))
  where
    keeps : (k v : Text) → lookup k env ≡ some v → lookup k (insert key value env) ≡ some v
    keeps k v old = elim (Bool-cases (text_eq key k)) [
      | inl same ↦ absurd (cc (old, fresh, text_eq→eq key k same))
      | inr differs ↦ ground (arith, lookup-insert key k value env)
    ]

Extends-refl : (a : Loading) → Extends a a
Extends-refl a = (λ k v e. e, refl)

set_entry-Extends :
    (a b : Loading) (key value : Text) → set_entry a key value ≡ done b → Extends a b
unfolding set_entry
set_entry-Extends a b [] value e = subst (Extends a) (done_injective a b e) (Extends-refl a)
set_entry-Extends a b (c ∷ k) value e = elim (Option-cases (lookup (c ∷ k) a.0)) [
  | inl new ↦
      let (env', made, same) = and_run_done _ _ b (rw new at e) in
      subst (Extends a) (done_injective (env', a.1 + 1) b same)
        (set_new-Extends a.0 env' a.1 (c ∷ k) (unquoted value) new made)
  | inr (v, old) ↦ subst (Extends a) (done_injective a b (rw old at e)) (Extends-refl a)
]

load_line-Extends : (a b : Loading) (l : Text) → load_line a l ≡ done b → Extends a b
unfolding load_line
load_line-Extends a b [] e = subst (Extends a) (done_injective a b e) (Extends-refl a)
load_line-Extends a b (c ∷ s) e = elim (Bool-cases (c == b'#')) [
  | inl comment ↦ subst (Extends a) (done_injective a b (rw comment at e)) (Extends-refl a)
  | inr entry ↦ elim (Option-cases (split_once (c ∷ s))) [
    | inl no_equals ↦ subst (Extends a) (ground arith) (Extends-refl a)
    | inr (kv, split) ↦ set_entry-Extends a b (trim kv.0) kv.1 (ground arith)
  ]
]

load_lines-Extends : (a b : Loading) (ls : List Text) → load_lines a ls ≡ done b → Extends a b
unfolding load_lines
load_lines-Extends a b [] e = subst (Extends a) (done_injective a b e) (Extends-refl a)
load_lines-Extends a c (l ∷ ls) e =
    let (b, first, rest) = and_run_done _ _ c e in
    Extends-trans a b c (load_line-Extends a b (trim l) first) (load_lines-Extends b c ls rest)

-- A file of variables that is loaded without a panic keeps the value of every variable that was
-- set, and adds as many variables as it reports.
pub load_env_text-Extends :
    (env : Map Text) (text : Text) (env' : Map Text) (n : ℕ)
    → load_env_text env text ≡ done (env', n)
    → ((k v : Text) → lookup k env ≡ some v → lookup k env' ≡ some v)
      × (length env' ≡ length env + n)
unfolding load_env_text
load_env_text-Extends env text env' n e =
    let (keep, count) = load_lines-Extends (env, 0) (env', n) (lines text) e in
    (keep, omega (arith, count))
