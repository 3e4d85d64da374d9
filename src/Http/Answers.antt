-- ===== src/Http/Answers.antt =====
-- What handler.go makes of the error of each use case.
use poc_hydra_auth.Prelude.{
  ℕ, zero, suc, ◌*◌, ◌/◌, ◌%◌, ◌==◌, ltb, leb, String, Option, none, some, if◌then◌else◌,
}
use poc_hydra_auth.Errors.{
  Err, sentinel, rate_limited_error, locked_error, session_revoked_error, pg_error, service_error,
  wrapped, joined, is, Reason, Sentinel, password_changed, token_reuse_detected, account_deleted,
}
use poc_hydra_auth.Errors
use poc_hydra_auth.Http.Problem.{
  HttpErr, problem_error, plain_error, new_problem, with_retry_after, with_error_code,
  with_revocation_reason,
}

abbrev pub or_else : {A : Type 0} → Option A → Option A → Option A
or_else none o = o
or_else (some a) o = some a

-- errors.As for *command.RateLimitedError, *command.LockedError and *command.SessionRevokedError.
unfoldable pub as_rate_limited : Err → Option ℕ
as_rate_limited (rate_limited_error d) = some d
as_rate_limited (wrapped m e) = as_rate_limited e
as_rate_limited (joined a b) = or_else (as_rate_limited a) (as_rate_limited b)
as_rate_limited _ = none

unfoldable pub as_locked : Err → Option ℕ
as_locked (locked_error d) = some d
as_locked (wrapped m e) = as_locked e
as_locked (joined a b) = or_else (as_locked a) (as_locked b)
as_locked _ = none

unfoldable pub as_session_revoked : Err → Option Reason
as_session_revoked (session_revoked_error r) = some r
as_session_revoked (wrapped m e) = as_session_revoked e
as_session_revoked (joined a b) = or_else (as_session_revoked a) (as_session_revoked b)
as_session_revoked _ = none

-- The codes of revocation_reason.go.
abbrev pub reason_code : Reason → String
reason_code password_changed = "password_changed"
reason_code token_reuse_detected = "token_reuse_detected"
reason_code account_deleted = "account_deleted"
reason_code Reason.account_disabled = "account_disabled"

-- The greatest power of two that is not above a number, the powers below `p` being passed and the
-- fuel being enough for the powers that are left.
abbrev pub top_power : ℕ → ℕ → ℕ → ℕ
top_power zero p n = p
top_power (suc fuel) p n = let rest = top_power fuel (2 * p) n in if leb (2 * p) n then rest else p

-- int(math.Ceil(d.Seconds())). Seconds adds the whole seconds and the rest as float64s, and the sum
-- is rounded to 53 bits: a rest below half of the last bit is lost, a greater one leaves more than
-- the whole seconds, of which a time.Duration has fewer than 2 ^ 34. No rest is just half a bit.
abbrev pub ceil_sum : ℕ → ℕ → ℕ → ℕ
ceil_sum sec nsec power =
    if nsec == 0
    then sec
    else if ltb (nsec * 9007199254740992) (1000000000 * power)
    then sec
    else suc sec

abbrev pub ceil_seconds : ℕ → ℕ
ceil_seconds d = ceil_sum (d / 1000000000) (d % 1000000000) (top_power 34 1 (d / 1000000000))

abbrev pub refused : ℕ → String → String → HttpErr
refused status slug detail = problem_error (new_problem status slug detail)

-- A case of a switch by errors.Is.
abbrev pub on_value : {A B : Type 0} → Option A → (A → B) → B → B
on_value none f b = b
on_value (some a) f b = f a

abbrev pub too_many : Err → String → HttpErr → HttpErr
unfolding as_rate_limited
too_many e detail other =
    on_value (as_rate_limited e)
      (λ d.
        problem_error
          (with_retry_after (ceil_seconds d) (new_problem 429 "rate-limit-exceeded" detail)))
      other

abbrev pub invalid_email_answer : HttpErr
invalid_email_answer = refused 400 "validation-error" "メールアドレスの形式が不正です"

abbrev pub invalid_password_answer : HttpErr
invalid_password_answer = refused 400 "validation-error" "パスワードは15〜64文字で指定してください"

abbrev pub missing_body : HttpErr
missing_body = refused 400 "validation-error" "リクエストボディが必要です"

abbrev pub missing_token : HttpErr
missing_token = refused 400 "validation-error" "トークンが必要です"

abbrev pub internal_error : HttpErr
internal_error = refused 500 "internal-error" "サーバ内部エラーが発生しました"

-- The switch of RegisterAccount
unfoldable pub register_answer : Err → HttpErr
unfolding too_many
register_answer e =
    if is e Errors.invalid_email
    then invalid_email_answer
    else if is e Errors.invalid_password
    then invalid_password_answer
    else too_many e "登録リクエストが多すぎます" (
        if is e Errors.mail_delivery_fail
        then refused 503 "mail-delivery-error" "確認メールの送信に失敗しました"
        else plain_error e)

-- The switch of VerifyEmail
unfoldable pub verify_answer : Err → HttpErr
unfolding too_many
verify_answer e =
    if is e Errors.invalid_token
    then refused 400 "invalid-token" "メール確認トークンが無効です"
    else if is e Errors.token_expired
    then refused 400 "token-expired" "メール確認トークンの有効期限が切れています"
    else too_many e "メール確認リクエストが多すぎます" (plain_error e)

-- The switch of ResendEmailVerification
unfoldable pub resend_answer : Err → HttpErr
unfolding too_many
resend_answer e = too_many e "メール確認リクエストが多すぎます" (
    if is e Errors.mail_delivery_fail
    then refused 503 "mail-delivery-error" "確認メールの送信に失敗しました"
    else plain_error e)

-- The switch of RequestPasswordReset
unfoldable pub request_reset_answer : Err → HttpErr
unfolding too_many
request_reset_answer e = too_many e "パスワードリセット要求が多すぎます" (
    if is e Errors.invalid_email
    then invalid_email_answer
    else if is e Errors.mail_delivery_fail
    then refused 503 "mail-delivery-error" "リセットメールの送信に失敗しました"
    else plain_error e)

-- The switch of AcceptInvitation
unfoldable pub accept_answer : Err → HttpErr
accept_answer e =
    if is e Errors.invalid_password
    then invalid_password_answer
    else if is e Errors.invalid_invitation_token
    then refused 400 "invalid-token" "無効な招待トークン"
    else if is e Errors.invitation_token_expired
    then refused 400 "token-expired" "招待トークンの有効期限が切れています"
    else if is e Errors.email_already_registered
    then refused 409 "email-already-registered" "このメールアドレスのアカウントは既に存在します"
    else internal_error

-- The switch of InviteAdmin
unfoldable pub invite_answer : Err → HttpErr
unfolding too_many
invite_answer e = too_many e "招待リクエストが多すぎます" (
    if is e Errors.invalid_email
    then invalid_email_answer
    else if is e Errors.invalid_admin_role
    then refused 400 "validation-error" "指定できるロールは管理者ロールのみです"
    else if is e Errors.role_already_assigned
    then refused 409 "role-already-assigned" "既に管理者ロールが付与されています"
    else if is e Errors.email_already_registered
    then refused 409 "email-already-registered" "このメールアドレスのアカウントは既に存在します"
    else if is e Errors.mail_delivery_fail
    then refused 503 "mail-delivery-error" "招待メールの送信に失敗しました"
    else plain_error e)

-- The switch of DisableAdminAccount
unfoldable pub disable_answer : Err → HttpErr
disable_answer e =
    if is e Errors.user_not_found
    then refused 404 "user-not-found" "対象ユーザーが存在しません"
    else if is e Errors.not_admin_account
    then refused 400 "not-admin-account" "対象は管理者アカウントではありません"
    else if is e Errors.already_disabled
    then refused 409 "account-already-disabled" "既に無効化済みです"
    else if is e Errors.last_super_admin
    then refused 409 "last-super-admin" "最後のsuper_adminは無効化できません"
    else internal_error

-- The switch of ReactivateAdminAccount
unfoldable pub reactivate_answer : Err → HttpErr
reactivate_answer e =
    if is e Errors.user_not_found
    then refused 404 "user-not-found" "対象ユーザーが存在しません"
    else if is e Errors.not_admin_account
    then refused 400 "not-admin-account" "対象は管理者アカウントではありません"
    else if is e Errors.not_disabled
    then refused 409 "account-not-disabled" "対象は無効化されていません"
    else internal_error

-- The switch of ConfirmPasswordReset
unfoldable pub confirm_reset_answer : Err → HttpErr
confirm_reset_answer e =
    if is e Errors.invalid_password
    then invalid_password_answer
    else if is e Errors.invalid_reset_token
    then refused 400 "invalid-token" "無効なリセットトークン"
    else if is e Errors.reset_token_expired
    then refused 400 "token-expired" "リセットトークンの有効期限が切れています"
    else internal_error

-- The switch of Login
unfoldable pub login_answer : Err → HttpErr
unfolding as_locked
login_answer e =
    if is e Errors.invalid_email
    then invalid_email_answer
    else on_value (as_locked e)
        (λ d. problem_error (
          with_error_code "account_locked" (
            with_retry_after (ceil_seconds d)
              (new_problem 429 "account-locked" "アカウントがロックされています"))))
        (if is e Errors.authentication_failed
          then refused 401 "authentication-failed" "認証に失敗しました"
          else if is e Errors.email_not_verified
          then refused 403 "email-not-verified" "メールアドレスが確認されていません"
          else if is e Sentinel.account_disabled
          then refused 403 "account-disabled" "アカウントが無効化されています"
          else plain_error e)

abbrev pub revoked_answer : Reason → HttpErr
revoked_answer r =
    problem_error
      (with_revocation_reason (reason_code r) (new_problem 401 "session-revoked" "セッションが失効しました"))

-- The switch of RefreshToken
unfoldable pub refresh_answer : Err → HttpErr
unfolding as_session_revoked
refresh_answer e =
    if is e Errors.invalid_refresh_token
    then refused 401 "invalid-token" "リフレッシュトークンが無効です"
    else if is e Errors.refresh_token_expired
    then refused 401 "token-expired" "リフレッシュトークンの有効期限が切れています"
    else on_value (as_session_revoked e) revoked_answer (plain_error e)

-- The switch of Logout
unfoldable pub logout_answer : Err → HttpErr
logout_answer e =
    if is e Errors.refresh_token_format_invalid
    then refused 400 "validation-error" "リフレッシュトークンが必要です"
    else plain_error e

-- The switch of ChangePassword
unfoldable pub change_password_answer : Err → HttpErr
unfolding as_session_revoked
change_password_answer e =
    if is e Errors.invalid_password
    then refused 400 "validation-error" "パスワードは15〜64文字かつUTF-8で72バイト以下で指定してください"
    else on_value (as_session_revoked e) revoked_answer (
        if is e Errors.password_mismatch
        then refused 403 "password-mismatch" "現在のパスワードが一致しません"
        else internal_error)
