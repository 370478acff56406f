-- ===== src/Model/Request/Scan.antt =====
-- The whole loop over the files: which lists of files it accepts, and what it then holds.
use mathlib.Core.List.{Perm, perm_middle}
use mathlib.Core.List.Perm
use rust_daily.Base.{
  ℕ, ◌+◌, ◌≤◌, ◌<◌, ◌≡◌, ◌≢◌, refl, ◌||◌, ap, sym, subst, List, [], ◌∷◌, ◌++◌, map, arith, any, All,
  ok, on_ok, saturating_add, usize_max,
}
use rust_daily.Collections.Contents.{insert-perm, All-insert}
use rust_daily.Collections.Fresh.{insert-fresh, fresh-insert}
use rust_daily.Collections.Sorted.{IsSortedMap, insert-IsSortedMap, insert-All}
use rust_daily.Model.Limits.{ValidationLimits}
use rust_daily.Model.Request.Files.{
  entry, IsAccepted, FileStep, scanned, scan_file-ok, ok-scan_file,
}
use rust_daily.Model.Request.{FileScan, scan_file, scan_files}
use rust_daily.Model.Types.{
  SubmittedPath_ord, SubmittedFile, SubmittedPath, is_required_lib, is_test_file,
}
use rust_daily.Text.{len}

-- The bytes of all contents.
abbrev pub content_bytes : List SubmittedFile → ℕ
content_bytes [] = 0
content_bytes (f ∷ fs) = len f.content + content_bytes fs

-- No two files have the same path.
abbrev pub Distinct : List SubmittedFile → Type 0
Distinct [] = Unit
Distinct (f ∷ fs) = All (λ g. g.path ≢ f.path) fs × Distinct fs

-- What the loop holds in the end, if it began with `scan`.
pub record Scanned (scan : FileScan) (files : List SubmittedFile) (scan' : FileScan) : Type 0 where
  pub contents : Perm scan'.validated_files (map entry files ++ scan.validated_files)
  pub sorted : IsSortedMap scan'.validated_files
  pub lib : scan'.has_lib_rs ≡ (scan.has_lib_rs || any (λ f. is_required_lib (entry f).0) files)
  pub test : scan'.has_test_file ≡ (scan.has_test_file || any (λ f. is_test_file (entry f).0) files)
  pub bytes : scan'.total_bytes ≡ scan.total_bytes + content_bytes files

module _ (limits : ValidationLimits) (small : limits.max_total_bytes < usize_max) where
  -- The state before a round: sorted, and within the limit.
  pub record Ready (scan : FileScan) : Type 0 where
    pub sorted : IsSortedMap scan.validated_files
    pub within : scan.total_bytes ≤ limits.max_total_bytes

  scanned-Ready :
      (scan : FileScan) (f : SubmittedFile)
      → Ready scan
      → FileStep limits scan f
      → Ready (scanned scan f)
  scanned-Ready scan f r s = record {
    sorted = insert-IsSortedMap (entry f).0 (entry f).1 scan.validated_files r.sorted;
    within = s.within;
  }

  Scanned-cons :
      (scan scan' : FileScan) (f : SubmittedFile) (fs : List SubmittedFile)
      → Ready scan
      → FileStep limits scan f
      → Scanned (scanned scan f) fs scan'
      → Scanned scan (f ∷ fs) scan'
  Scanned-cons scan scan' f fs r step t = record {
    contents = Perm.trans t.contents (
        Perm.trans
          (Perm.append_left (map entry fs)
            (insert-perm (entry f).0 (entry f).1 scan.validated_files step.fresh))
          (perm_middle {a = entry f} (map entry fs) scan.validated_files));
    sorted = t.sorted;
    lib = ground (arith, t.lib);
    test = ground (arith, t.test);
    bytes =
        let total : saturating_add scan.total_bytes (len f.content) ≤ limits.max_total_bytes =
          step.within in
        omega (arith, t.bytes, total, small);
  }

  pub scan_files-Scanned :
      (scan scan' : FileScan) (files : List SubmittedFile)
      → Ready scan
      → scan_files limits scan files ≡ ok scan'
      → Scanned scan files scan'
  unfolding scan_files
  scan_files-Scanned scan scan' [] r h =
      let same : scan ≡ scan' = ground arith in
      subst (Scanned scan []) same (record {
        contents = Perm.refl scan.validated_files;
        sorted = r.sorted;
        lib = ground arith;
        test = ground arith;
        bytes = omega arith;
      })
  scan_files-Scanned scan scan' (f ∷ fs) r h = on_ok (scan_file limits scan f) _ h λ mid e h'.
      let (step, mid_is) = scan_file-ok limits scan mid f e in
      Scanned-cons scan scan' f fs r step (
        scan_files-Scanned (scanned scan f) scan' fs (scanned-Ready scan f r step)
          (rw mid_is at h'))

  -- What the loop asks of the files, if it begins with `scan`.
  pub record Accepts (scan : FileScan) (files : List SubmittedFile) : Type 0 where
    pub accepted : All (IsAccepted limits) files
    pub distinct : Distinct files
    pub apart : All (λ f. All (λ e. e.0 ≢ (entry f).0) scan.validated_files) files
    pub within : scan.total_bytes + content_bytes files ≤ limits.max_total_bytes

  later_apart :
      (scan : FileScan) (f : SubmittedFile) (fs : List SubmittedFile)
      → FileStep limits scan f
      → All (λ g. All (λ e. e.0 ≢ (entry g).0) (scanned scan f).validated_files) fs
      → All (λ g. g.path ≢ f.path) fs
        × All (λ g. All (λ e. e.0 ≢ (entry g).0) scan.validated_files) fs
  later_apart scan f [] step h = (tt, tt)
  later_apart scan f (g ∷ gs) step (p, h) =
      let (n, q) =
        All-insert (λ e. e.0 ≢ (entry g).0) (entry f).0 (entry f).1 scan.validated_files step.fresh
          p in
      let (ns, qs) = later_apart scan f gs step h in
      ((λ e. n (λ i. record { as_str = sym e i }), ns), (q, qs))

  Accepts-cons :
      (scan : FileScan) (f : SubmittedFile) (fs : List SubmittedFile)
      → Ready scan
      → FileStep limits scan f
      → Accepts (scanned scan f) fs
      → Accepts scan (f ∷ fs)
  Accepts-cons scan f fs r step t =
      let (ns, qs) = later_apart scan f fs step t.apart in
      record {
        accepted = (step.accepted, t.accepted);
        distinct = (ns, t.distinct);
        apart = (fresh-insert (entry f).0 (entry f).1 scan.validated_files r.sorted step.fresh, qs);
        within = omega (arith, t.within, small, step.within);
      }

  pub scan_files-Accepts :
      (scan scan' : FileScan) (files : List SubmittedFile)
      → Ready scan
      → scan_files limits scan files ≡ ok scan'
      → Accepts scan files
  unfolding scan_files
  scan_files-Accepts scan scan' [] r h = record {
    accepted = tt;
    distinct = tt;
    apart = tt;
    within = omega (arith, r.within);
  }
  scan_files-Accepts scan scan' (f ∷ fs) r h = on_ok (scan_file limits scan f) _ h λ mid e h'.
      let (step, mid_is) = scan_file-ok limits scan mid f e in
      Accepts-cons scan f fs r step (
        scan_files-Accepts (scanned scan f) scan' fs (scanned-Ready scan f r step)
          (rw mid_is at h'))

  still_apart :
      (scan : FileScan) (f : SubmittedFile) (fs : List SubmittedFile)
      → All (λ g. g.path ≢ f.path) fs
      → All (λ g. All (λ e. e.0 ≢ (entry g).0) scan.validated_files) fs
      → All (λ g. All (λ e. e.0 ≢ (entry g).0) (scanned scan f).validated_files) fs
  still_apart scan f [] n h = tt
  still_apart scan f (g ∷ gs) (n, ns) (p, h) = (
    insert-All (λ e. e.0 ≢ (entry g).0) (entry f).0 (entry f).1 scan.validated_files
        (λ q. n (sym (ap (λ (x : SubmittedPath). x.as_str) q))) p,
    still_apart scan f gs ns h,
  )

  Accepts-step :
      (scan : FileScan) (f : SubmittedFile) (fs : List SubmittedFile)
      → Accepts scan (f ∷ fs)
      → FileStep limits scan f
  Accepts-step scan f fs a = record {
    accepted = a.accepted.0;
    within = omega (arith, a.within);
    fresh = insert-fresh (entry f).0 (entry f).1 scan.validated_files a.apart.0;
  }

  pub ok-scan_files :
      (scan : FileScan) (files : List SubmittedFile)
      → Accepts scan files
      → (scan' : FileScan) × (scan_files limits scan files ≡ ok scan')
  unfolding scan_files
  ok-scan_files scan [] a = (scan, refl)
  ok-scan_files scan (f ∷ fs) a =
      let (scan', e) = ok-scan_files (scanned scan f) fs (record {
        accepted = a.accepted.1;
        distinct = a.distinct.1;
        apart = still_apart scan f fs a.distinct.0 a.apart.1;
        within = omega (arith, a.within);
      }) in
      (scan', rw (ok-scan_file limits scan f (Accepts-step scan f fs a)) e)
