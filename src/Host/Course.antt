-- ===== src/Host/Course.antt =====
-- Programs that run in a row, each only if all before it have succeeded.
use stir_main.Base.{
  String, ◌==◌, ◌≡◌, Bool, true, false, inl, inr, Bool-cases, Option-cases, none, some, List, [],
  ◌∷◌,
}
use stir_main.Host.{Host, Trace, Proc, Completed, Event, ran, read, removed, asked}
use stir_main.Host.Exec.{
  Exec, Result, ok, fail, called_process_error, os_error, check, call, query, ok_or_raise,
  read_text, some_or_raise, pure, raise, ◌>>=◌,
}

-- Events other than programs, questions and removals.
abbrev pub is_note : Event → Bool
is_note (ran _) = false
is_note (removed _) = false
is_note (asked _) = false
is_note _ = true

-- `Course h ps t (r, u)`: from the history `t` on the programs `ps` run in that order, with notes
-- between some of them, until one fails or a file cannot be read; the outcome is `r`, at `u`.
pub data Course (h : Host) : List Proc → Trace → Result Unit × Trace → Type 0 where
  finished : {t : Trace} → Course h [] t (ok tt, t)
  broke :
      {p : Proc} {ps : List Proc} {t : Trace}
      → ((h.run t p).returncode == 0) ≡ false
      → Course h (p ∷ ps) t (fail (called_process_error p.argv), ran p ∷ t)
  passed :
      {p : Proc} {ps : List Proc} {t : Trace} {r : Result Unit × Trace}
      → ((h.run t p).returncode == 0) ≡ true
      → Course h ps (ran p ∷ t) r
      → Course h (p ∷ ps) t r
  noted :
      {e : Event} {ps : List Proc} {t : Trace} {r : Result Unit × Trace}
      → is_note e ≡ true
      → Course h ps (e ∷ t) r
      → Course h ps t r
  unread :
      {path : String} {ps : List Proc} {t : Trace}
      → h.read_text t path ≡ none
      → Course h ps t (fail os_error, read path ∷ t)
  opened :
      {path text : String} {ps : List Proc} {t : Trace} {r : Result Unit × Trace}
      → h.read_text t path ≡ some text
      → Course h ps (read path ∷ t) r
      → Course h ps t r

module _ {h : Host} {ps : List Proc} where
  pub Course-check :
      (p : Proc) (k : Completed → Exec Unit) (t : Trace)
      → ((c : Completed) → Course h ps (ran p ∷ t) (k c h (ran p ∷ t)))
      → Course h (p ∷ ps) t ((check p >>= k) h t)
  unfolding check call query ok_or_raise ◌>>=◌
  Course-check p k t rest = elim (Bool-cases ((h.run t p).returncode == 0)) [
    | inl good ↦ rw good (passed good (rest (h.run t p)))
    | inr bad ↦ rw bad (broke bad)
  ]

  pub Course-read :
      (path : String) (k : String → Exec Unit) (t : Trace)
      → ((text : String)
          → h.read_text t path ≡ some text
          → Course h ps (read path ∷ t) (k text h (read path ∷ t)))
      → Course h ps t ((read_text path >>= k) h t)
  unfolding read_text query some_or_raise pure raise ◌>>=◌
  Course-read path k t rest = elim (Option-cases (h.read_text t path)) [
    | inl missing ↦ rw missing (unread missing)
    | inr (text, found) ↦ rw found (opened found (rest text found))
  ]
