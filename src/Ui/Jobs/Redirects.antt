-- ===== src/Ui/Jobs/Redirects.antt =====
-- The descriptors that a job is started with.
use yapara_c.Prelude.{
  ℕ, zero, suc, ◌<◌, Bool, true, false, List, [], ◌∷◌, ◌≡◌, refl, ap, ◌∙◌, arith, if◌then◌else◌,
  length, get_or,
}
use yapara_c.Shell.Types.{mode_null, mode_pipe, FdInfo, CreateInfo}
use yapara_c.Ui.Jobs.{is_inherit, no_fd, capture_fd, null_stdin, redirect_job}

-- What becomes of a descriptor below 3 that the command line did not redirect.
abbrev pub captured_fd : Bool → ℕ → FdInfo → FdInfo
captured_fd captures_output zero info = record info { mode = mode_null }
captured_fd captures_output (suc fd) info =
    if captures_output then record info { mode = mode_pipe; is_in = false; is_out = true } else info

abbrev pub redirected_fd : Bool → ℕ → FdInfo → FdInfo
redirected_fd captures_output fd info =
    if is_inherit info.mode then captured_fd captures_output fd info else info

redirected_fd-inherits :
    (fd : ℕ) (info : FdInfo) → is_inherit (redirected_fd true fd info).mode ≡ false
redirected_fd-inherits zero info = ground arith
redirected_fd-inherits (suc fd) info = ground arith

fd_infos_lem :
    (captures_output : Bool) (a b c : FdInfo)
    → null_stdin
        (if captures_output then capture_fd 2 (capture_fd 1 (a ∷ b ∷ c ∷ [])) else a ∷ b ∷ c ∷ [])
      ≡ redirected_fd captures_output 0 a
        ∷ redirected_fd captures_output 1 b
        ∷ redirected_fd captures_output 2 c
        ∷ []
unfolding null_stdin capture_fd
fd_infos_lem captures_output a b c = ground arith

redirected_infos-get :
    (captures_output : Bool) (fd : ℕ) (infos : List FdInfo)
    → length infos ≡ 3
    → fd < 3
    → get_or
        (null_stdin (if captures_output then capture_fd 2 (capture_fd 1 infos) else infos))
        fd
        no_fd
      ≡ redirected_fd captures_output fd (get_or infos fd no_fd)
redirected_infos-get captures_output fd [] h k = absurd (omega arith)
redirected_infos-get captures_output fd (a ∷ []) h k = absurd (omega arith)
redirected_infos-get captures_output fd (a ∷ b ∷ []) h k = absurd (omega arith)
redirected_infos-get captures_output fd (a ∷ b ∷ c ∷ d ∷ infos) h k = absurd (omega arith)
redirected_infos-get captures_output zero (a ∷ b ∷ c ∷ []) h k =
    ap (λ l. get_or l 0 no_fd) (fd_infos_lem captures_output a b c)
redirected_infos-get captures_output (suc zero) (a ∷ b ∷ c ∷ []) h k =
    ap (λ l. get_or l 1 no_fd) (fd_infos_lem captures_output a b c)
redirected_infos-get captures_output (suc (suc zero)) (a ∷ b ∷ c ∷ []) h k =
    ap (λ l. get_or l 2 no_fd) (fd_infos_lem captures_output a b c)
redirected_infos-get captures_output (suc (suc (suc fd))) (a ∷ b ∷ c ∷ []) h k =
    absurd (omega arith)

-- Of a request with its three descriptors, `yc_ui_spawn` changes only those that the command line
-- left to be inherited: stdin comes from nowhere, and stdout and stderr are pipes that are read,
-- where the output is captured, and stay inherited where it is not. So with captured output no
-- descriptor below 3 is left to be inherited.
pub redirect_job-fd_infos :
    (captures_output : Bool) (info : CreateInfo) (fd : ℕ)
    → length info.fd_infos ≡ 3
    → fd < 3
    → let after = redirect_job captures_output info in
      (after ≡ record info { fd_infos = after.fd_infos })
      × (get_or after.fd_infos fd no_fd
          ≡ redirected_fd captures_output fd (get_or info.fd_infos fd no_fd))
      × (is_inherit (get_or (redirect_job true info).fd_infos fd no_fd).mode ≡ false)
unfolding redirect_job
redirect_job-fd_infos captures_output info fd h k = (
  refl,
  redirected_infos-get captures_output fd info.fd_infos h k,
  ap (λ (i : FdInfo). is_inherit i.mode) (redirected_infos-get true fd info.fd_infos h k)
      ∙ redirected_fd-inherits fd (get_or info.fd_infos fd no_fd),
)
