-- ===== src/Model/Cases/Snippets.antt =====
-- What `validate_diagnostic_snippets` checks, and what it collects.
use mathlib.Core.List.{Perm, perm_middle}
use mathlib.Core.List.Perm
use rust_daily.Base.{
  ℕ, ◌+◌, ◌≤◌, ◌<◌, ◌≡◌, ◌≢◌, not, true, false, List, [], ◌∷◌, ◌++◌, map, arith, ltb, is_empty, All,
  ok, on_ok, on_pass, saturating_add, usize_max,
}
use rust_daily.Collections.Contents.{set_insert-perm}
use rust_daily.Collections.Sorted.{IsSortedSet, set_insert-IsSortedSet}
use rust_daily.Collections.{BTreeSet, set_insert}
use rust_daily.Model.Cases.{ByteCounts, diagnostic_snippet, add_snippet, add_snippets}
use rust_daily.Model.Limits.{ValidationLimits}
use rust_daily.Model.Types.{DiagnosticSnippet_ord, DiagnosticSnippet}
use rust_daily.Text.{Text, len, trim}

-- The validated form of a snippet.
abbrev pub trimmed : Text → DiagnosticSnippet
trimmed s = record { as_str = trim s }

-- The bytes of all snippets, as submitted.
abbrev pub snippet_bytes : List Text → ℕ
snippet_bytes [] = 0
snippet_bytes (s ∷ ss) = len s + snippet_bytes ss

-- The counts after one more text.
abbrev pub counted : ByteCounts → Text → ByteCounts
counted c s = record {
  diagnostic_bytes = saturating_add c.diagnostic_bytes (len s);
  total_bytes = saturating_add c.total_bytes (len s);
}

pub record IsSnippet (limits : ValidationLimits) (s : Text) : Type 0 where
  pub bytes : len s ≤ limits.max_diagnostic_snippet_bytes
  pub non_blank : trim s ≢ []

pub record SnippetStep (limits : ValidationLimits) (counts : ByteCounts)
    (validated : BTreeSet DiagnosticSnippet) (s : Text) : Type 0 where
  pub accepted : IsSnippet limits s
  pub within_diagnostics :
      saturating_add counts.diagnostic_bytes (len s) ≤ limits.max_diagnostic_total_bytes
  pub within_total : saturating_add counts.total_bytes (len s) ≤ limits.max_total_bytes
  pub fresh : (set_insert (trimmed s) validated).0 ≡ true

pub is_empty-eq-false {ℓ} : {A : Type ℓ} (xs : List A) → is_empty xs ≡ false → xs ≢ []
is_empty-eq-false [] h e = cc
is_empty-eq-false (x ∷ xs) h e = cc

add_snippet-ok :
    (name : Text) (limits : ValidationLimits) (counts : ByteCounts)
    (validated : BTreeSet DiagnosticSnippet) (s : Text) (c : ByteCounts)
    (v : BTreeSet DiagnosticSnippet)
    → add_snippet name limits counts validated s ≡ ok (c, v)
    → SnippetStep limits counts validated s
      × (c ≡ counted counts s)
      × (v ≡ (set_insert (trimmed s) validated).1)
unfolding add_snippet diagnostic_snippet
add_snippet-ok name limits counts validated s c v h =
    on_pass (ltb limits.max_diagnostic_snippet_bytes (len s)) _ _ h λ t1 h1.
      on_pass
        (ltb limits.max_diagnostic_total_bytes (saturating_add counts.diagnostic_bytes (len s))) _ _
        h1
        λ t2 h2.
          on_pass (ltb limits.max_total_bytes (saturating_add counts.total_bytes (len s))) _ _ h2
            λ t3 h3. on_ok (diagnostic_snippet s name) _ h3 λ q p h4.
              on_pass (is_empty (trim s)) _ _ p λ t4 same.
                let e : q ≡ trimmed s = ground arith in
                on_pass (not (set_insert q validated).0) _ _ h4 λ t5 r.
                  let fresh : (set_insert q validated).0 ≡ true = ground (arith, t5) in
                  (
                    record {
                      accepted = record {
                        bytes = ground (arith, t1);
                        non_blank = is_empty-eq-false (trim s) t4;
                      };
                      within_diagnostics = ground (arith, t2);
                      within_total = ground (arith, t3);
                      fresh = rw e at fresh;
                    },
                    ground arith,
                    ground arith,
                  )

-- What the loop holds in the end.
pub record Collected (limits : ValidationLimits) (counts : ByteCounts)
    (validated : BTreeSet DiagnosticSnippet) (ss : List Text) (c : ByteCounts)
    (v : BTreeSet DiagnosticSnippet) : Type 0 where
  pub accepted : All (IsSnippet limits) ss
  pub contents : Perm v (map trimmed ss ++ validated)
  pub sorted : IsSortedSet v
  pub diagnostic_bytes : c.diagnostic_bytes ≡ counts.diagnostic_bytes + snippet_bytes ss
  pub total_bytes : c.total_bytes ≡ counts.total_bytes + snippet_bytes ss
  pub within_diagnostics : c.diagnostic_bytes ≤ limits.max_diagnostic_total_bytes
  pub within_total : c.total_bytes ≤ limits.max_total_bytes

pub record AreWithin (limits : ValidationLimits) (counts : ByteCounts) : Type 0 where
  pub diagnostics : counts.diagnostic_bytes ≤ limits.max_diagnostic_total_bytes
  pub total : counts.total_bytes ≤ limits.max_total_bytes

-- Below this bound the counts never saturate.
pub record IsSmall (limits : ValidationLimits) : Type 0 where
  pub total : limits.max_total_bytes < usize_max
  pub diagnostics : limits.max_diagnostic_total_bytes < usize_max

module _ (name : Text) (limits : ValidationLimits) (small : IsSmall limits) where
  Collected-cons :
      (counts : ByteCounts) (validated : BTreeSet DiagnosticSnippet) (s : Text) (ss : List Text)
      (c : ByteCounts) (v : BTreeSet DiagnosticSnippet)
      → SnippetStep limits counts validated s
      → Collected limits (counted counts s) (set_insert (trimmed s) validated).1 ss c v
      → Collected limits counts validated (s ∷ ss) c v
  Collected-cons counts validated s ss c v step t = record {
    accepted = (step.accepted, t.accepted);
    contents = Perm.trans t.contents (
        Perm.trans
          (Perm.append_left (map trimmed ss) (set_insert-perm (trimmed s) validated step.fresh))
          (perm_middle {a = trimmed s} (map trimmed ss) validated));
    sorted = t.sorted;
    diagnostic_bytes =
        omega (arith, t.diagnostic_bytes, step.within_diagnostics, small.diagnostics);
    total_bytes = omega (arith, t.total_bytes, step.within_total, small.total);
    within_diagnostics = t.within_diagnostics;
    within_total = t.within_total;
  }

  pub add_snippets-Collected :
      (counts : ByteCounts) (validated : BTreeSet DiagnosticSnippet) (ss : List Text)
      (c : ByteCounts) (v : BTreeSet DiagnosticSnippet)
      → AreWithin limits counts
      → IsSortedSet validated
      → add_snippets name limits counts validated ss ≡ ok (c, v)
      → Collected limits counts validated ss c v
  unfolding add_snippets
  add_snippets-Collected counts validated [] c v w s h =
      let same_c : counts ≡ c = ground arith in
      let same_v : validated ≡ v = ground arith in
      rw (← same_c, ← same_v)
        (record {
          accepted = tt;
          contents = Perm.refl validated;
          sorted = s;
          diagnostic_bytes = omega arith;
          total_bytes = omega arith;
          within_diagnostics = w.diagnostics;
          within_total = w.total;
        })
  add_snippets-Collected counts validated (s ∷ ss) c v w o h =
      on_ok (add_snippet name limits counts validated s) _ h λ r e h'.
        let (step, c_is, v_is) = add_snippet-ok name limits counts validated s r.0 r.1 e in
        Collected-cons counts validated s ss c v step (
          add_snippets-Collected (counted counts s) (set_insert (trimmed s) validated).1 ss c v
            (record { diagnostics = step.within_diagnostics; total = step.within_total })
            (set_insert-IsSortedSet (trimmed s) validated o) (rw (c_is, v_is) at h'))
