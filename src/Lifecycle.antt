-- ===== src/Lifecycle.antt =====
-- STM-01 of .docs/design/states.md: the states in which an account may begin, and the moves of the
-- diagram that the implemented operations make. (UC-016, deletion, is not implemented.)
use poc_hydra_auth.Domain.Status.{Status, mail_unverified, inactive, disabled}

pub data Initial : Status → Type 0 where
  registration : Initial mail_unverified
  invitation : Initial inactive

pub data Edge : Status → Status → Type 0 where
  confirmation : Edge mail_unverified inactive
  disabling : Edge inactive disabled
  reactivation : Edge disabled inactive

pub data Walk : Status → Status → Type 0 where
  stays : {s : Status} → Walk s s
  moves : {s t u : Status} → Walk s t → Edge t u → Walk s u

pub append : {s t u : Status} → Walk s t → Walk t u → Walk s u
append p stays = p
append p (moves q e) = moves (append p q) e
