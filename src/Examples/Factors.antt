-- ===== src/Examples/Factors.antt =====
-- The theorems on second factors at concrete data.
use device_management_platfo.Base.{
  ◌≡◌, ◌≢◌, ◌<◌, refl, arith, false, [], ◌*◌, err, exists, find, count, update,
}
use device_management_platfo.Store.{Db, mfa_challenge, second}
use device_management_platfo.Store.Mfa.{
  CompleteMfaInput, NewIds, complete_mfa, fail_mfa_challenge, pending_challenge, consume_challenge,
  spend_factor, open_session, is_challenge,
}
use device_management_platfo.Store.Mfa.Attempts.{start, fail, step, five_failures, completed_once}
use device_management_platfo.Store.Mfa.Replay.{totp_advances, recovery_spent}
use device_management_platfo.Store.Mfa.Steps.{here, next, fail_challenge}
use device_management_platfo.Examples.{sample, note, after}

abbrev ids : NewIds
ids = record { session_id = "a5"; audit_id = "l5"; code_id = λ _. "" }

abbrev ids_later : NewIds
ids_later = record { session_id = "a6"; audit_id = "l6"; code_id = λ _. "" }

abbrev by_totp : CompleteMfaInput
by_totp = record {
  challenge_id = "m1";
  password_hash = "";
  method = "totp";
  counter = 4;
  code_hash = "";
  token_hash = "t5";
  csrf_hash = "c5";
  expires_at = 2000 * second;
  recovery = [];
  method_bound = "";
  audit = note;
}

abbrev by_totp_later : CompleteMfaInput
by_totp_later = record by_totp { challenge_id = "m2"; counter = 6; token_hash = "t6" }

abbrev logged_in : Db
logged_in = (complete_mfa after false ids (20 * second) by_totp sample).0

abbrev once_failed : Db
once_failed = (fail_mfa_challenge "m2" logged_in).0

totp_advances_example : 4 < 6
unfolding complete_mfa pending_challenge consume_challenge spend_factor open_session find exists
    count update is_challenge fail_mfa_challenge
totp_advances_example =
    totp_advances after ids ids_later (20 * second) (50 * second) by_totp by_totp_later sample
      once_failed _ _ refl refl (next here (fail_challenge "m2")) refl refl refl

abbrev by_code : CompleteMfaInput
by_code = record by_totp { method = "recovery"; code_hash = "rc1" }

five_failures_example :
    (complete_mfa after false ids
      (20 * second)
      by_totp
      (fail_mfa_challenge "m1"
        (fail_mfa_challenge "m1"
          (fail_mfa_challenge "m1"
            (fail_mfa_challenge "m1" (fail_mfa_challenge "m1" sample).0).0).0).0).0).1
    ≡ err mfa_challenge
five_failures_example =
    five_failures after sample _ 5 false ids (20 * second) by_totp
      (fail (fail (fail (fail (fail start))))) (omega arith)

completed_once_example :
    (complete_mfa after false ids_later (60 * second) by_code once_failed).1 ≡ err mfa_challenge
unfolding complete_mfa pending_challenge consume_challenge spend_factor open_session find exists
    count update is_challenge fail_mfa_challenge
completed_once_example =
    completed_once after sample once_failed 0 false false ids ids_later (20 * second) (60 * second)
      by_totp by_code _ refl (step start (fail_challenge "m2") refl) refl

abbrev by_code_later : CompleteMfaInput
by_code_later = record by_totp_later { method = "recovery"; code_hash = "rc2" }

abbrev logged_in_by_code : Db
logged_in_by_code = (complete_mfa after false ids (20 * second) by_code sample).0

recovery_spent_example : by_code_later.code_hash ≢ by_code.code_hash
unfolding complete_mfa pending_challenge consume_challenge spend_factor open_session find exists
    count update is_challenge
recovery_spent_example =
    recovery_spent after ids ids_later (20 * second) (50 * second) by_code by_code_later sample
      logged_in_by_code _ _ refl refl here refl refl refl
