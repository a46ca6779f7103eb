-- ===== src/Host/Samples.antt =====
-- A host on which nothing happens but time, for the runs of the scripts to vary.
use stir_main.Base.{true, ℕ, ◌+◌, String, [], ◌∷◌, none, some, false, ◌≡◌, ◌≤◌, arith}
use stir_main.Json.{null, value}
use stir_main.Host.{Host, Web, Completed, Event, Trace, unreachable, slept}
use stir_main.Host.Clock.{ClockRuns}

abbrev pub done : String → Completed
done stdout = record { returncode = 0; stdout = stdout; stderr = "" }

abbrev pub failed : Completed
failed = record { returncode = 1; stdout = ""; stderr = "no" }

unfoldable pub ticks : Trace → ℕ
ticks [] = 0
ticks (slept n ∷ t) = n + ticks t
ticks (_ ∷ t) = ticks t

abbrev pub offline : Web
offline = record {
  urlopen = λ t r. unreachable;
  loads = λ s. value null;
  dumps = λ v. "";
  canonical = λ v. "";
  repr = λ v. "";
  lower = λ s. s;
  upper = λ s. s;
  draw = λ t d. "abcdefghijkl";
  public_key = λ k. "";
  sign = λ k s. "";
  sign_rsa = λ k s. "";
  sha256 = λ s. "";
  float_of = λ s. none;
  hostname = λ s. none;
  iso_now = λ t. "";
}

abbrev pub idle : Host
idle = record {
  root = "/srv/stir-main";
  executable = "python3";
  argv = [];
  environ = λ k. none;
  run = λ t p. done "";
  exists = λ t path. false;
  is_dir = λ t path. false;
  list_dirs = λ t path. [];
  read_text = λ t path. some "";
  removes = λ t path. true;
  answer = λ t prompt. none;
  second = 1;
  clock = ticks;
  which = λ name. none;
  web = offline;
}

ticks-steady : (e : Event) (t : Trace) → ticks t ≤ ticks (e ∷ t)
unfolding ticks
ticks-steady e t = ground arith

pub idle-ClockRuns : (h : Host) → h.clock ≡ ticks → h.second ≡ 1 → ClockRuns h
unfolding ticks
idle-ClockRuns h c s = record {
  steady = λ e t. rw c (ticks-steady e t);
  sleeps = λ n t. rw (c, s) (omega arith);
}
