-- ===== src/Backup/Retention.antt =====
-- `prune`: which backups go, and which stay.
use mathlib.Core.List.{Perm}
use stir_main.Base.{
  ◌⊎◌, inl, inr, Bool-cases, false, ℕ, zero, suc, ◌-◌, leb, String, ◌<>◌, ◌≡◌, refl, sym, ap, subst,
  ◌∙◌, List, [], ◌∷◌, ◌++◌, All, length, take, drop, take-append-drop, length-drop, arith,
  if◌then◌else◌,
}
use stir_main.Base.Int.{ℤ, pos, negsuc}
use stir_main.Host.{Host, Trace, removed, printed, listed, ◌/◌}
use stir_main.Host.Exec.{steps, Result, ok, fail, os_error, for_each, ◌>>=◌, asks, list_dirs, query}
use stir_main.Backup.{sorted, stale_of, remove_run, prune}
use stir_main.Backup.Sorting.{
  IsBelow, IsSorted, sorted-IsSorted, sorted-Perm, length-sorted, IsSorted-append,
}

-- How many of `n` backups `--keep` keeps: all of them if it is not positive.
abbrev pub kept_of : ℤ → ℕ → ℕ
kept_of (pos zero) n = n
kept_of (pos (suc k)) n = if leb (suc k) n then suc k else n
kept_of (negsuc k) n = n

-- The history after the names have been removed, in their order.
abbrev pub pruned : String → List String → Trace → Trace
pruned dir [] t = t
pruned dir (x ∷ xs) t =
    pruned dir xs (printed ("Pruned old backup: " <> (dir / x)) ∷ removed (dir / x) ∷ t)

abbrev pub backups : Host → String
backups h = h.root / ".local/backups"

-- The removal of `stale` one after the other stops with an error at one that cannot be removed.
abbrev pub Stopped : String → List String → Host → Trace → Result Unit × Trace → Type 0
Stopped dir stale h t r =
    (gone : List String) × (x : String) × (later : List String) × (stale ≡ gone ++ x ∷ later)
    × (h.removes (pruned dir gone t) (dir / x) ≡ false)
    × (r ≡ (fail os_error, removed (dir / x) ∷ pruned dir gone t))

-- `stale` are removed from `names`, as far as they can be; they are no newer than any that stay.
pub record IsPruned (keep : ℤ) (names : List String) (h : Host) (t : Trace)
    (r : Result Unit × Trace) : Type 0 where
  pub stale : List String
  pub kept : List String
  pub whole : Perm (stale ++ kept) names
  pub older : All (λ x. All (IsBelow x) kept) stale
  pub count : length kept ≡ kept_of keep (length names)
  pub effect :
      (r ≡ (ok tt, pruned (backups h) stale (listed (backups h) ∷ t)))
      ⊎ Stopped (backups h) stale h (listed (backups h) ∷ t) r

abbrev cut_at : ℤ → ℕ → ℕ
cut_at (pos zero) n = 0
cut_at (pos (suc k)) n = n - suc k
cut_at (negsuc k) n = 0

stale-take : (keep : ℤ) (xs : List String) → stale_of keep xs ≡ take (cut_at keep (length xs)) xs
stale-take (pos zero) xs = refl
stale-take (pos (suc k)) xs = refl
stale-take (negsuc k) xs = refl

cut-kept : (keep : ℤ) (n : ℕ) → n - cut_at keep n ≡ kept_of keep n
cut-kept (pos zero) n = omega arith
cut-kept (pos (suc k)) n = ground arith
cut-kept (negsuc k) n = omega arith

remove_all :
    (dir : String) (xs : List String) (h : Host) (t : Trace)
    → (for_each xs (remove_run dir) h t ≡ (ok tt, pruned dir xs t))
      ⊎ Stopped dir xs h t (for_each xs (remove_run dir) h t)
unfolding steps remove_run
remove_all dir [] h t = inl refl
remove_all dir (x ∷ xs) h t = elim (Bool-cases (h.removes t (dir / x))) [
  | inr stays ↦ inr ([], x, xs, refl, stays, rw stays refl)
  | inl goes ↦
      elim (remove_all dir xs h
        (printed ("Pruned old backup: " <> (dir / x)) ∷ removed (dir / x) ∷ t)) [
          | inl all_gone ↦ inl (rw goes all_gone)
          | inr (gone, y, later, whole, stays, stops) ↦
              inr (x ∷ gone, y, later, ap (λ ys. x ∷ ys) whole, stays, rw goes stops)
        ]
]

-- Pruning removes no other backups than the oldest by name, and leaves as many as `--keep` says, or all
-- of them if there are no more or `--keep` is not positive; it stops with an error at one that cannot be
-- removed, with those before it gone.
pub prune-IsPruned :
    (keep : ℤ) (h : Host) (t : Trace)
    → IsPruned keep (h.list_dirs t (backups h)) h t (prune keep h t)
unfolding ◌>>=◌ asks list_dirs query prune
prune-IsPruned keep h t =
    let names = h.list_dirs t (backups h) in
    let runs = sorted names in
    let n = cut_at keep (length runs) in
    let halves : take n runs ++ drop n runs ≡ runs = take-append-drop n runs in
    record {
      stale = take n runs;
      kept = drop n runs;
      whole = subst (λ xs. Perm xs names) (sym halves) (sorted-Perm names);
      older =
          IsSorted-append (take n runs) (drop n runs)
            (subst IsSorted (sym halves) (sorted-IsSorted names));
      count =
          length-drop n runs
          ∙ cut-kept keep (length runs)
          ∙ ap (kept_of keep) (length-sorted names);
      effect =
          rw (stale-take keep runs)
            (remove_all (backups h) (take n runs) h (listed (backups h) ∷ t));
    }
