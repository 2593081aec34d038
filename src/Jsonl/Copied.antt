-- ===== src/Jsonl/Copied.antt =====
-- What ForkCopy does to the files.
use sr_code.Prelude.{
  String, ◌≡◌, refl, ◌≢◌, ◌⊎◌, inl, inr, Bool, true, false, Option, none, some, List, arith, eq_iff,
  ◌==◌, nat_has_eq, string_has_eq, Bool-cases, Option-cases,
}
use sr_code.Prelude.Dict.{lookup, insert, remove, lookup-insert, lookup-remove}
use sr_code.Jsonl.{Event}
use sr_code.Jsonl.Fork.{
  Forked, forked, not_found, not_completed, mismatch, install, fork_prefix, fork_copy,
}
use sr_code.Jsonl.{str_append}

install-files :
    (write_ok rename_ok : Bool) (partial : Option (List String)) (dst : String) (out : List String)
    (other : String) (fs : List (String × List String))
    → other ≢ str_append dst ".tmp"
    → (other ≢ dst) ⊎ ((install write_ok rename_ok partial dst out fs).0 ≡ false)
    → lookup other (install write_ok rename_ok partial dst out fs).1 ≡ lookup other fs
unfolding install
install-files false rename_ok none dst out other fs ne cause = refl
install-files false rename_ok (some left) dst out other fs ne cause =
    let tmp = str_append dst ".tmp" in
    ground (arith, ne, lookup-insert tmp other left fs, eq_iff tmp other)
install-files true false partial dst out other fs ne cause =
    let tmp = str_append dst ".tmp" in
    ground (
      arith,
      ne,
      lookup-remove tmp other (insert tmp out fs),
      lookup-insert tmp other out fs,
      eq_iff tmp other,
    )
install-files true true partial dst out other fs ne cause =
    let tmp = str_append dst ".tmp" in
    ground (
      arith,
      ne,
      cause,
      lookup-insert dst other out (remove tmp (insert tmp out fs)),
      lookup-remove tmp other (insert tmp out fs),
      lookup-insert tmp other out fs,
      eq_iff tmp other,
      eq_iff dst other,
    )

module _ (decode : String → Option Event) (contains : String → String → Bool)
    (replace_all : String → String → String → String) where
  Forked-cases :
      (f : Forked)
      → ((f ≡ not_found) ⊎ ((f ≡ not_completed) ⊎ (f ≡ mismatch)))
        ⊎ ((out : List String) × (f ≡ forked out))
  Forked-cases not_found = inl (inl refl)
  Forked-cases not_completed = inl (inr (inl refl))
  Forked-cases mismatch = inl (inr (inr refl))
  Forked-cases (forked out) = inr (out, refl)

  -- Of all files but the temporary one, a fork changes only its target, and that only if it
  -- succeeds.
  pub fork_copy-files :
      (write_ok rename_ok : Bool) (partial : Option (List String))
      (src dst after old new other : String) (fs : List (String × List String))
      → other ≢ str_append dst ".tmp"
      → (other ≢ dst)
        ⊎ ((fork_copy decode contains replace_all write_ok rename_ok partial src dst after old new
              fs).0
            ≡ false)
      → lookup other
          (fork_copy decode contains replace_all write_ok rename_ok partial src dst after old new
            fs).1
        ≡ lookup other fs
  unfolding fork_copy
  fork_copy-files write_ok rename_ok partial src dst after old new other fs ne cause =
      elim (Bool-cases (after == "")) [
        | inl a ↦ rw (fork_copy, a) refl
        | inr a ↦ elim (Option-cases (lookup dst fs)) [
          | inr (there, b) ↦ rw (fork_copy, a, b) refl
          | inl b ↦ elim (Option-cases (lookup src fs)) [
            | inl c ↦ rw (fork_copy, a, b, c) refl
            | inr (lines, c) ↦
                elim (Forked-cases (fork_prefix decode contains replace_all after old new lines)) [
                  | inl (inl d) ↦ rw (fork_copy, a, b, c, d) refl
                  | inl (inr (inl d)) ↦ rw (fork_copy, a, b, c, d) refl
                  | inl (inr (inr d)) ↦ rw (fork_copy, a, b, c, d) refl
                  | inr (out, d) ↦
                      rw (fork_copy, a, b, c, d)
                        (install-files write_ok rename_ok partial dst out other fs ne (elim cause [
                          | inl apart ↦ inl apart
                          | inr failed ↦ inr (rw (fork_copy, a, b, c, d) at failed)
                        ]))
                ]
          ]
        ]
      ]
