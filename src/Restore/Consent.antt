-- ===== src/Restore/Consent.antt =====
-- When a restore may begin, and what it does when it may not.
use stir_main.Base.{
  String, ◌≡◌, refl, sym, ap, ◌∙◌, ◌⊎◌, inl, inr, ◌↔◌, Bool, true, false, some, List, [], ◌∷◌,
  arith, eq_iff, if◌then◌else◌, Bool-cases, Option-cases,
}
use stir_main.Base.Text.{strip}
use stir_main.Host.{Host, Trace, Event, printed, looked, asked, ◌/◌}
use stir_main.Host.Exec.{steps, Result, ok, fail, Failure, member, pure, emit, ◌>>=◌}
use stir_main.Host.Emits.{Grown, Grown-trans, Emits, emits_rules}
use stir_main.Host.Raises.{result_cases}
use stir_main.Restore.{
  dump_of, archive_of, directory, production_prompt, prompt, warning, ask_for, confirm, has_both,
  replace, restore_from, restore,
}

-- The operator's answer to the question, at the history `t`, is the word.
abbrev pub IsAnswered : Host → Trace → String → String → Type 0
IsAnswered h t question word =
    (answer : String) × (h.answer t question ≡ some answer) × (strip answer ≡ word)

-- In production the operator has typed the name of the project; elsewhere the command line says
-- `--yes`, or the operator has typed `yes`.
abbrev pub IsConfirmed : Bool → List String → String → Host → Trace → Type 0
IsConfirmed production args dir h t =
    if production
    then IsAnswered h (warning ∷ t) (production_prompt dir) "stir-prod"
    else ((member "--yes" args ≡ true) ⊎ IsAnswered h t (prompt dir) "yes")

ask_for_iff :
    (question word : String) (h : Host) (t : Trace)
    → ((ask_for question word h t).0 ≡ ok tt) ↔ IsAnswered h t question word
unfolding steps ask_for
ask_for_iff question word h t = (
  λ e. elim (Option-cases (h.answer t question)) [
    | inl silent ↦ absurd (ground arith)
    | inr (answer, said) ↦ (answer, said, ground (arith, eq_iff (strip answer) word))
  ],
  λ (answer, said, same). ground (arith, eq_iff (strip answer) word),
)

confirm_iff :
    (production : Bool) (args : List String) (dir : String) (h : Host) (t : Trace)
    → ((confirm production args dir h t).0 ≡ ok tt) ↔ IsConfirmed production args dir h t
unfolding emit ◌>>=◌ pure confirm
confirm_iff true args dir h t = ask_for_iff (production_prompt dir) "stir-prod" h (warning ∷ t)
confirm_iff false args dir h t = elim (Bool-cases (member "--yes" args)) [
  | inl yes_ ↦ (λ e. inl yes_, λ c. rw yes_ refl)
  | inr no_ ↦
      let asks_ : confirm false args dir h t ≡ ask_for (prompt dir) "yes" h t = rw no_ refl in
      let (to_answer, from_answer) = ask_for_iff (prompt dir) "yes" h t in
      (
        λ e. inr (to_answer (ap (λ r. r.0) (sym asks_) ∙ e)),
        λ c. elim c [
          | inl yes_ ↦ absurd (ground arith)
          | inr answered ↦ ap (λ r. r.0) asks_ ∙ from_answer answered
        ],
      )
]

-- What a restore does before it begins.
pub data Quiet : Event → Type 0 where
  told : (s : String) → Quiet (printed s)
  saw : (path : String) → Quiet (looked path)
  questioned : (s : String) → Quiet (asked s)

ruleset quiet_rules = (emits_rules, told, saw, questioned)

confirm-Emits :
    (production : Bool) (args : List String) (dir : String)
    → Emits Quiet (confirm production args dir)
unfolding confirm ask_for
confirm-Emits production args dir = search quiet_rules depth 14

-- The histories at which the two files are looked for, and at which the question is asked.
abbrev pub begun : Host → Trace → Trace
begun h t = looked (h.root / ".local/production") ∷ t

abbrev pub dump_seen : Host → String → Trace → Trace
dump_seen h dir t = looked (dump_of dir) ∷ begun h t

abbrev pub files_seen : Host → String → Trace → Trace
files_seen h dir t = looked (archive_of dir) ∷ dump_seen h dir t

abbrev pub in_production : Host → Trace → Bool
in_production h t = h.exists t (h.root / ".local/production")

-- The command line names a directory, both files are there, and the operator has consented.
pub record IsCleared (h : Host) (t : Trace) : Type 0 where
  pub dir : String
  pub named : directory h.root h.argv ≡ some dir
  pub dump : h.exists (begun h t) (dump_of dir) ≡ true
  pub archive : h.exists (dump_seen h dir t) (archive_of dir) ≡ true
  pub confirmed : IsConfirmed (in_production h t) h.argv dir h (files_seen h dir t)

abbrev pub IsRefused : Trace → Result Unit × Trace → Type 0
IsRefused t r = ((e : Failure) × (r.0 ≡ fail e)) × Grown Quiet t r.1

seen-Grown : (h : Host) (dir : String) (t : Trace) → Grown Quiet t (files_seen h dir t)
seen-Grown h dir t = record {
  since = _ ∷ _ ∷ _ ∷ [];
  whole = refl;
  each = (saw _, (saw _, (saw _, tt)));
}

-- Unless the directory is named, both files are there and the operator has consented, a restore raises,
-- and has done nothing but print, ask, and look whether files exist: no program has run.
pub restore-IsRefused : (h : Host) (t : Trace) → ¬ IsCleared h t → IsRefused t (restore h t)
unfolding steps restore restore_from has_both
restore-IsRefused h t not_cleared = elim (Option-cases (directory h.root h.argv)) [
  | inl unnamed ↦
      rw unnamed ((_, refl), record { since = _ ∷ []; whole = refl; each = (saw _, tt) })
  | inr (dir, named) ↦ elim (Bool-cases (h.exists (begun h t) (dump_of dir))) [
    | inr missing ↦
        rw (named, missing)
          ((_, refl), record { since = _ ∷ _ ∷ []; whole = refl; each = (saw _, (saw _, tt)) })
    | inl dump ↦ elim (Bool-cases (h.exists (dump_seen h dir t) (archive_of dir))) [
      | inr missing ↦ rw (named, dump, missing) ((_, refl), seen-Grown h dir t)
      | inl archive ↦
          let production = in_production h t in
          let u = files_seen h dir t in
          elim (result_cases (confirm production h.argv dir h u).0) [
            | inl (_, passed) ↦ absurd (
                not_cleared (record {
                  dir = dir;
                  named = named;
                  dump = dump;
                  archive = archive;
                  confirmed = (confirm_iff production h.argv dir h u).0 passed;
                }))
            | inr (e, broken) ↦
                rw (named, dump, archive, broken)
                  (
                    (e, refl),
                    Grown-trans t u _ (seen-Grown h dir t)
                        ((confirm-Emits production h.argv dir).grown h u),
                  )
          ]
    ]
  ]
]

-- When the directory is named, both files are there and the operator has consented, a restore goes on to
-- the replacement of the data, after the confirmation.
pub restore-begins :
    (h : Host) (t : Trace) (c : IsCleared h t)
    → restore h t
      ≡ replace
          (in_production h t)
          c.dir
          h
          (confirm (in_production h t) h.argv c.dir h (files_seen h c.dir t)).1
unfolding steps restore restore_from has_both
restore-begins h t c =
    let passed =
      (confirm_iff (in_production h t) h.argv c.dir h (files_seen h c.dir t)).1 c.confirmed in
    rw (c.named, c.dump, c.archive, passed) refl
