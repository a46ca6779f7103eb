-- ===== src/Proxy/Arming.antt =====
-- `do_post`: which commits are spoiled, over any order in which the threads pass the lock.
use stir_main.Base.{
  Bool-cases, inl, inr, All, map, false, ℕ, ◌+◌, ◌≤◌, String, ◌==◌, ◌≡◌, refl, ◌∙◌, ap, true, false,
  Option, none, some, List, [], ◌∷◌, ◌++◌, reverse, arith, if◌then◌else◌, Option-cases,
}
use stir_main.Base.Text.{starts_with, ends_with, after_last}
use mathlib.Core.List.{reverse-append}
use stir_main.Proxy.{
  Mode, normal, drop_after_once, response, cut_off, Handled, Exchange, forward, in_mode,
  arming_prefix, mode_named, arm, do_post, serve,
}

-- What a POST request asks of the proxy, by its path.
pub data Role : Type 0 where
  arming : Mode → Role
  bad_arming : Role
  commit : Role
  other : Role

abbrev role_of_mode : Option Mode → Role
role_of_mode none = bad_arming
role_of_mode (some m) = arming m

unfoldable pub role : Exchange → Role
unfolding mode_named
role x =
    if starts_with x.1.path arming_prefix
    then role_of_mode (mode_named (after_last b'/' x.1.path))
    else if ends_with x.1.path "/commit"
    then commit
    else other

-- The mode that a history, newest first, leaves armed: the last one armed since the last commit.
pub armed_since_commit : List Exchange → Mode
armed_since_commit [] = normal
armed_since_commit (x ∷ past) = elim (role x) [
  | arming m ↦ m
  | commit ↦ normal
  | _ ↦ armed_since_commit past
]

abbrev next_after : Mode → Role → Mode
next_after next (arming m) = m
next_after next commit = normal
next_after next _ = next

module _ (upstream : String) where
  mode-do_post :
      (next : Mode) (x : Exchange) → (do_post upstream next x).0 ≡ next_after next (role x)
  unfolding do_post role
  mode-do_post next x = ground arith

  mode-serve-snoc :
      (next : Mode) (past : List Exchange) (x : Exchange)
      → (serve upstream next (past ++ x ∷ [])).0 ≡ next_after (serve upstream next past).0 (role x)
  unfolding serve
  mode-serve-snoc next [] x = mode-do_post next x
  mode-serve-snoc next (y ∷ past) x = mode-serve-snoc (do_post upstream next y).0 past x

  mode-serve :
      (past : List Exchange) → (serve upstream normal (reverse past)).0 ≡ armed_since_commit past
  unfolding serve armed_since_commit
  mode-serve [] = refl
  mode-serve (x ∷ past) =
      rw (reverse-append (x ∷ []) past) (
        mode-serve-snoc normal (reverse past) x ∙ ap (λ m. next_after m (role x)) (mode-serve past))

  -- A commit is handled in the mode armed last since the commit before it, in `normal` if none was,
  -- and it leaves the proxy disarmed; the history is newest first.
  pub commit_takes_armed :
      (past : List Exchange) (x : Exchange)
      → role x ≡ commit
      → do_post upstream (serve upstream normal (reverse past)).0 x
        ≡ (normal, in_mode upstream (armed_since_commit past) x)
  unfolding do_post role
  commit_takes_armed past x h = rw (mode-serve past) (ground arith)

  -- A proxy that gets no request to arm it is transparent: every request is forwarded and answered as
  -- by `forward` without a fault, commits too, and it stays disarmed.
  pub unarmed_is_transparent :
      (xs : List Exchange)
      → All (λ x. starts_with x.1.path "/__audit/mode/" ≡ false) xs
      → serve upstream normal xs ≡ (normal, map (forward upstream false) xs)
  unfolding serve do_post in_mode
  unarmed_is_transparent [] plain = refl
  unarmed_is_transparent (x ∷ xs) (plain, rest) =
      let later = unarmed_is_transparent xs rest in
      rw plain (elim (Bool-cases (ends_with x.1.path "/commit")) [
        | inl commits ↦ rw (commits, later) refl
        | inr plainly ↦ rw (plainly, later) refl
      ])

-- 1 for a request whose peer was refused by the proxy itself, or was cut off.
abbrev pub spoiled : Handled → ℕ
spoiled x = elim x.outcome [
  | cut_off ↦ 1
  | response status payload kind ↦ elim x.forwarded [
    | none ↦ if status == 503 then 1 else 0
    | some o ↦ 0
  ]
  | _ ↦ 0
]

abbrev pub total_spoiled : List Handled → ℕ
total_spoiled [] = 0
total_spoiled (x ∷ xs) = spoiled x + total_spoiled xs

abbrev is_fault : Mode → ℕ
is_fault normal = 0
is_fault _ = 1

abbrev role_arms : Role → ℕ
role_arms (arming m) = is_fault m
role_arms _ = 0

-- How often the requests arm a fault.
abbrev pub armings : List Exchange → ℕ
armings [] = 0
armings (x ∷ xs) = role_arms (role x) + armings xs

spoiled-le-one : (x : Handled) → spoiled x ≤ 1
spoiled-le-one x = ground arith

module _ (upstream : String) where
  spoiled-forward : (x : Exchange) → spoiled (forward upstream false x) ≡ 0
  unfolding forward
  spoiled-forward x = ground arith

  spoiled-in_mode : (m : Mode) (x : Exchange) → spoiled (in_mode upstream m x) ≤ is_fault m
  unfolding in_mode
  spoiled-in_mode normal x = omega (arith, spoiled-forward x)
  spoiled-in_mode drop_after_once x = spoiled-le-one (forward upstream true x)
  spoiled-in_mode _ x = omega arith

  spoiled_step :
      (next : Mode) (x : Exchange)
      → spoiled (do_post upstream next x).1 + is_fault (do_post upstream next x).0
        ≤ role_arms (role x) + is_fault next
  unfolding do_post role arm
  spoiled_step next x = ground (
    arith,
    spoiled-in_mode next x,
    spoiled-in_mode normal x,
    Option-cases (mode_named (after_last b'/' x.1.path)),
  )

  spoiled_run :
      (next : Mode) (xs : List Exchange)
      → total_spoiled (serve upstream next xs).1 + is_fault (serve upstream next xs).0
        ≤ armings xs + is_fault next
  unfolding serve
  spoiled_run next [] = omega arith
  spoiled_run next (x ∷ xs) =
      omega (arith, spoiled_step next x, spoiled_run (do_post upstream next x).0 xs)

  -- Over any sequence of requests, the proxy spoils at most as many as it was armed for.
  pub spoiled-le-armings :
      (xs : List Exchange) → total_spoiled (serve upstream normal xs).1 ≤ armings xs
  spoiled-le-armings xs = omega (arith, spoiled_run normal xs)
