-- ===== src/Initialize/Pins.antt =====
-- `ensure`: what a vendor clone stands on when the script goes on.
use stir_main.Base.{
  List, ◌∷◌, String, ◌<>◌, [], ◌=s=◌, ◌==◌, ◌≡◌, refl, sym, ap, subst, ◌∙◌, ◌⊎◌, inl, inr, Bool,
  true, false, arith, eq_iff, Bool-cases,
}
use stir_main.Base.Text.{strip}
use stir_main.Host.Passing.{bind_passes, bind_goes}
use stir_main.Host.Emits.{Grown, Grown-event, Grown-trans, Emits, Any, any, emits_rules}
use stir_main.Host.{Event, Host, Trace, Proc, ran}
use stir_main.Host.Exec.{steps, Exec, ok, at, pure, ◌>>=◌, ◌>>◌}
use stir_main.Host.Returns.{Returns, Returns-bind, returned_first}
use stir_main.Initialize.{
  Pin, output, clone_if_missing, heal, require, ensure, run, head_argv, origin_argv, git,
}

abbrev pub head_call : String → Proc
head_call target = at "" (head_argv target)

abbrev pub origin_call : String → Proc
origin_call target = at "" (origin_argv target)

-- What comes between the answer on the URL and the end: the clone is moved to another commit, and git
-- says where it stands. Nothing of it sets the URL.
pub data Moves (target : String) : Event → Type 0 where
  forced :
      (root commit : String)
      → Moves target (ran (at root (git target ("checkout" ∷ "--force" ∷ commit ∷ []))))
  cleaned : (root : String) → Moves target (ran (at root (git target ("clean" ∷ "-fd" ∷ []))))
  fetched :
      (root commit : String)
      → Moves target (ran (at root (git target ("fetch" ∷ "origin" ∷ commit ∷ []))))
  detached :
      (root commit : String)
      → Moves target (ran (at root (git target ("checkout" ∷ "--detach" ∷ commit ∷ []))))
  stood : Moves target (ran (head_call target))

-- The run from `t` to `u` has asked git for the URL of the clone, which was the pinned one, and since then
-- only moved the clone; and the last that git has said on where the clone stands is the pinned commit.
pub record IsPinned (pin : Pin) (target : String) (h : Host) (t u : Trace) : Type 0 where
  pub head_at : Trace
  pub origin_at : Trace
  pub on_commit : strip (h.run head_at (head_call target)).stdout ≡ pin.commit
  pub from_url : strip (h.run origin_at (origin_call target)).stdout ≡ pin.url
  pub started : Grown Any t origin_at
  pub since_asked : Grown (Moves target) (ran (origin_call target) ∷ origin_at) u
  pub last :
      (u ≡ ran (head_call target) ∷ head_at)
      ⊎ (u ≡ ran (origin_call target) ∷ ran (head_call target) ∷ head_at)

output_answers :
    (argv : List String) (h : Host) (t : Trace) (s : String)
    → (output argv h t).0 ≡ ok s
    → (s ≡ strip (h.run t (at "" argv)).stdout) × ((output argv h t).1 ≡ ran (at "" argv) ∷ t)
unfolding steps output
output_answers argv h t s e = elim (Bool-cases ((h.run t (at "" argv)).returncode == 0)) [
  | inl good ↦ (ground arith, rw good refl)
  | inr bad ↦ absurd (ground arith)
]

require_holds :
    (b : Bool) (message : String) (h : Host) (t : Trace)
    → (require b message h t).0 ≡ ok tt
    → (b ≡ true) × ((require b message h t).1 ≡ t)
unfolding steps require
require_holds true message h t e = (refl, refl)
require_holds false message h t e = absurd (ground arith)

-- The last four steps of `heal`, and what they return.
abbrev moving : Pin → String → String → Exec String
moving pin target actual = do
  run (git target ("checkout" ∷ "--force" ∷ actual ∷ []))
  run (git target ("clean" ∷ "-fd" ∷ []))
  run (git target ("fetch" ∷ "origin" ∷ pin.commit ∷ []))
  run (git target ("checkout" ∷ "--detach" ∷ pin.commit ∷ []))
  output (head_argv target)

abbrev Landed : Host → String → String → Trace → Type 0
Landed h target landed u =
    (v : Trace) × (landed ≡ strip (h.run v (head_call target)).stdout)
    × (u ≡ ran (head_call target) ∷ v)

moving-Returns :
    (pin : Pin) (target actual : String) (h : Host)
    → Returns h (Landed h target) (moving pin target actual)
moving-Returns pin target actual h = Returns-bind _ _ (λ _. Returns-bind _ _ (λ _.
    Returns-bind _ _ (λ _. Returns-bind _ _ (λ _. record {
      holds =
          λ u s e. let (told, last) = output_answers (head_argv target) h u s e in (u, told, last);
    }))))

-- What `heal` returns is where git last said that the clone stands.
heal_lands :
    (pin : Pin) (target actual : String) (h : Host) (t : Trace) (landed : String)
    → (heal pin target actual h t).0 ≡ ok landed
    → ((landed ≡ actual) × ((heal pin target actual h t).1 ≡ t))
      ⊎ Landed h target landed (heal pin target actual h t).1
unfolding heal pure
heal_lands pin target actual h t landed e = elim (Bool-cases (actual =s= pin.commit)) [
  | inl there ↦ inl (ground arith, rw there refl)
  | inr elsewhere ↦
      let same : heal pin target actual h t ≡ moving pin target actual h t = rw elsewhere refl in
      let (v, told, last) =
        (moving-Returns pin target actual h).holds t landed (ap (λ r. r.0) (sym same) ∙ e) in
      inr (v, told, ap (λ r. r.1) same ∙ last)
]

-- What `ensure` does after the clone is there, and once its origin is right.
abbrev landing : Pin → String → String → Exec Unit
landing pin target actual = do
  landed ← heal pin target actual
  require (landed =s= pin.commit) (
      pin.name
      <> ": wrong upstream commit even after re-fetching; the pinned commit may not exist on "
      <> pin.url)

abbrev checking : Pin → String → Exec Unit
checking pin target = do
  actual ← output (head_argv target)
  origin ← output (origin_argv target)
  require (origin =s= pin.url) (pin.name <> ": unexpected origin")
  landing pin target actual

landing-Emits :
    (pin : Pin) (target actual : String) → Emits (Moves target) (landing pin target actual)
unfolding heal require run output
landing-Emits pin target actual =
    search (emits_rules, forced, cleaned, fetched, detached, stood) depth 40

clone-Emits : (pin : Pin) (target : String) → Emits Any (clone_if_missing pin target)
unfolding clone_if_missing run
clone-Emits pin target = search (emits_rules, any) depth 40

module _ (pin : Pin) (target : String) (h : Host) (t : Trace) where
  abbrev head_answer : String
  head_answer = strip (h.run t (head_call target)).stdout

  abbrev origin_answer : String
  origin_answer = strip (h.run (ran (head_call target) ∷ t) (origin_call target)).stdout

  abbrev asked_both : Trace
  asked_both = ran (origin_call target) ∷ ran (head_call target) ∷ t

  landing-IsPinned :
      origin_answer ≡ pin.url
      → (landing pin target head_answer h asked_both).0 ≡ ok tt
      → IsPinned pin target h t (landing pin target head_answer h asked_both).1
  landing-IsPinned from_url e =
      let (landed, went, same) = returned_first (heal pin target head_answer) _ h asked_both tt e in
      let (on_commit, kept) =
        require_holds (landed =s= pin.commit) _ h _ (ap (λ r. r.0) (sym same) ∙ e) in
      let commit : landed ≡ pin.commit = (eq_iff landed pin.commit).0 on_commit in
      let whole : (landing pin target head_answer h asked_both).1
          ≡ (heal pin target head_answer h asked_both).1 =
        ap (λ r. r.1) same ∙ kept in
      elim (heal_lands pin target head_answer h asked_both landed went) [
        | inl (stayed, still) ↦ record {
          head_at = t;
          origin_at = ran (head_call target) ∷ t;
          on_commit = sym stayed ∙ commit;
          from_url = from_url;
          started = Grown-event t (ran (head_call target)) (any _);
          since_asked = (landing-Emits pin target head_answer).grown h asked_both;
          last = inr (whole ∙ still);
        }
        | inr (v, told, last) ↦ record {
          head_at = v;
          origin_at = ran (head_call target) ∷ t;
          on_commit = sym told ∙ commit;
          from_url = from_url;
          started = Grown-event t (ran (head_call target)) (any _);
          since_asked = (landing-Emits pin target head_answer).grown h asked_both;
          last = inl (whole ∙ last);
        }
      ]

  checking-IsPinned :
      (checking pin target h t).0 ≡ ok tt → IsPinned pin target h t (checking pin target h t).1
  checking-IsPinned e =
      let origin_call_ : Proc = origin_call target in
      let (actual, went, same) = returned_first (output (head_argv target)) _ h t tt e in
      let (told, at_head) = output_answers (head_argv target) h t actual went in
      let e2 = ap (λ r. r.0) (sym same) ∙ e in
      let (origin, went2, same2) = returned_first (output (origin_argv target)) _ h _ tt e2 in
      let (told2, at_origin) = output_answers (origin_argv target) h _ origin went2 in
      let e3 = ap (λ r. r.0) (sym same2) ∙ e2 in
      let (_, went3, same3) = returned_first (require (origin =s= pin.url) _) _ h _ tt e3 in
      let (right, kept) = require_holds (origin =s= pin.url) _ h _ went3 in
      let u2 = (output (origin_argv target) h (output (head_argv target) h t).1).1 in
      let u3 = (require (origin =s= pin.url) (pin.name <> ": unexpected origin") h u2).1 in
      let traces = kept ∙ at_origin ∙ ap (λ u. ran origin_call_ ∷ u) at_head in
      let whole : checking pin target h t ≡ landing pin target head_answer h asked_both =
        same
        ∙ same2
        ∙ same3
        ∙ ap (λ a. landing pin target a h u3) told
        ∙ ap (λ u. landing pin target head_answer h u) traces in
      let from_url : origin_answer ≡ pin.url =
        ap (λ u. strip (h.run u origin_call_).stdout) (sym at_head)
        ∙ sym told2
        ∙ (eq_iff origin pin.url).0 right in
      subst (λ r. IsPinned pin target h t r.1) (sym whole)
        (landing-IsPinned from_url (ap (λ r. r.0) (sym whole) ∙ e))

-- When the script goes on after a vendor clone, it has asked git for the URL of the clone, which was the
-- pinned one, has since then only moved the clone to another commit, and git has last said that the clone
-- stands on the pinned commit.
pub ensure-IsPinned :
    (pin : Pin) (target : String) (h : Host) (t : Trace)
    → (ensure pin target h t).0 ≡ ok tt
    → IsPinned pin target h t (ensure pin target h t).1
unfolding ensure
ensure-IsPinned pin target h t e =
    let u = (clone_if_missing pin target h t).1 in
    let (_, cloned, rest) =
      bind_passes (clone_if_missing pin target) (λ _. checking pin target) h t tt e in
    let p = checking-IsPinned pin target h u rest in
    let q : IsPinned pin target h t (checking pin target h u).1 = record {
      head_at = p.head_at;
      origin_at = p.origin_at;
      on_commit = p.on_commit;
      from_url = p.from_url;
      started = Grown-trans t u p.origin_at ((clone-Emits pin target).grown h t) p.started;
      since_asked = p.since_asked;
      last = p.last;
    } in
    subst (IsPinned pin target h t)
      (sym (bind_goes (clone_if_missing pin target) (λ _. checking pin target) h t tt cloned)) q
