-- ===== src/OpenclDevice/Requests.antt =====
-- What a row of requests under `CL_CHECK` does: each is made after the one before it succeeded, and
-- the first that fails is thrown.
use mathlib.Core.List.{append-nil, append_assoc}
use fpga_runtime.Common.{
  ◌≡◌, true, false, List, [], ◌∷◌, ◌++◌, if◌then◌else◌, ℕ, Bool-cases, inl, inr,
}
use fpga_runtime.Exec.{◌>>=◌, Result, ok, err, cl_error}
use fpga_runtime.OpenclUtil.{Place, check_text, is_success, opencl_err_to_string}
use fpga_runtime.Opencl.{Library, Call, Accepts}
use fpga_runtime.OpenclDevice.{Method, OpenclDevice, checked}

-- The result of a method and all requests made by then.
abbrev pub outcome {ℓ} : {A : Type ℓ} → A × OpenclDevice → A × List Call
outcome (r, s) = (r, s.calls)

module _ (lib : Library) where
  -- The requests `cs`, of which the first that fails ends the row.
  unfoldable pub issue : Place → List Call → List Call → Result (Unit {0}) × List Call
  issue at before [] = (ok tt, before)
  issue at before (c ∷ cs) =
      let go_on = issue at (before ++ c ∷ []) cs in
      let status = (lib.respond before c).status in
      if is_success status then go_on else (
        err (cl_error (check_text at (opencl_err_to_string lib.headers status))),
        before ++ c ∷ [],
      )

  pub issue-Accepts :
      Accepts lib
      → (at : Place) (before cs : List Call) → issue at before cs ≡ (ok tt, before ++ cs)
  unfolding issue
  issue-Accepts a at before [] = rw append-nil
  issue-Accepts a at before (c ∷ cs) =
      rw (a before c, issue-Accepts a at (before ++ c ∷ []) cs) (rw append_assoc)

  pub checked_ok :
      (at : Place) (c : Call) (s : OpenclDevice)
      → is_success (lib.respond s.calls c).status ≡ true
      → checked lib at c s
        ≡ (ok (lib.respond s.calls c).value, record s { calls = s.calls ++ c ∷ [] })
  unfolding checked
  checked_ok at c s h = rw h

  pub checked_err :
      (at : Place) (c : Call) (s : OpenclDevice)
      → is_success (lib.respond s.calls c).status ≡ false
      → checked lib at c s ≡ (
        err (
            cl_error
              (check_text at (opencl_err_to_string lib.headers (lib.respond s.calls c).status))),
        record s { calls = s.calls ++ c ∷ [] },
      )
  unfolding checked
  checked_err at c s h = rw h

  pub issue_ok :
      (at : Place) (before : List Call) (c : Call) (cs : List Call)
      → is_success (lib.respond before c).status ≡ true
      → issue at before (c ∷ cs) ≡ issue at (before ++ c ∷ []) cs
  unfolding issue
  issue_ok at before c cs h = rw h

  pub issue_err :
      (at : Place) (before : List Call) (c : Call) (cs : List Call)
      → is_success (lib.respond before c).status ≡ false
      → issue at before (c ∷ cs) ≡ (
        err (
            cl_error
              (check_text at (opencl_err_to_string lib.headers (lib.respond before c).status))),
        before ++ c ∷ [],
      )
  unfolding issue
  issue_err at before c cs h = rw h

  -- The rule for a request under `CL_CHECK` and what follows it.
  pub checked-issues :
      (at : Place) (c : Call) (f : ℕ → Method (Unit {0})) (cs : List Call) (s : OpenclDevice)
      → outcome (f (lib.respond s.calls c).value (record s { calls = s.calls ++ c ∷ [] }))
        ≡ issue at (s.calls ++ c ∷ []) cs
      → outcome ((checked lib at c >>= f) s) ≡ issue at s.calls (c ∷ cs)
  checked-issues at c f cs s rest = elim (Bool-cases (is_success (lib.respond s.calls c).status)) [
    | inl good ↦ rw (issue_ok at s.calls c cs good, checked_ok at c s good) rest
    | inr bad ↦ rw (issue_err at s.calls c cs bad, checked_err at c s bad)
  ]
