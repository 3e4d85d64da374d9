-- ===== src/History/Spent.antt =====
-- The rows of the one-time tokens: what a row keeps and how its used_at may change.
use poc_hydra_auth.Prelude.{ℕ, ◌≡◌, refl, ◌∙◌, true, List, ◌∷◌, is_none}
use poc_hydra_auth.Domain.Token.{NewToken}
use poc_hydra_auth.Db.{AuthToken, AuthInvitationToken}
use poc_hydra_auth.Db.Tokens.{mark_used, mark_invitation_used, inserted_token}
use poc_hydra_auth.History.Kept.{Kept, Kept-refl, Kept-trans, Kept-unset}
use poc_hydra_auth.History.Grows.{Grows, enters, Grows-refl, Grows-trans}

pub record Spends (t u : AuthToken) : Type 0 where
  pub same_id : u.token_uuid ≡ t.token_uuid
  pub same_user : u.user_uuid ≡ t.user_uuid
  pub same_hash : u.token_hash ≡ t.token_hash
  pub same_expiry : u.expires_at ≡ t.expires_at
  pub used : Kept t.used_at u.used_at

pub Spends-refl : (t : AuthToken) → Spends t t
Spends-refl t = record {
  same_id = refl;
  same_user = refl;
  same_hash = refl;
  same_expiry = refl;
  used = Kept-refl t.used_at;
}

pub Spends-trans : (t u v : AuthToken) → Spends t u → Spends u v → Spends t v
Spends-trans t u v h k = record {
  same_id = k.same_id ∙ h.same_id;
  same_user = k.same_user ∙ h.same_user;
  same_hash = k.same_hash ∙ h.same_hash;
  same_expiry = k.same_expiry ∙ h.same_expiry;
  used = Kept-trans t.used_at u.used_at v.used_at h.used k.used;
}

pub record SpendsInvitation (t u : AuthInvitationToken) : Type 0 where
  pub same_id : u.token_uuid ≡ t.token_uuid
  pub same_email : u.email ≡ t.email
  pub same_role : u.role ≡ t.role
  pub same_hash : u.token_hash ≡ t.token_hash
  pub same_expiry : u.expires_at ≡ t.expires_at
  pub used : Kept t.used_at u.used_at

pub SpendsInvitation-refl : (t : AuthInvitationToken) → SpendsInvitation t t
SpendsInvitation-refl t = record {
  same_id = refl;
  same_email = refl;
  same_role = refl;
  same_hash = refl;
  same_expiry = refl;
  used = Kept-refl t.used_at;
}

pub SpendsInvitation-trans :
    (t u v : AuthInvitationToken)
    → SpendsInvitation t u
    → SpendsInvitation u v
    → SpendsInvitation t v
SpendsInvitation-trans t u v h k = record {
  same_id = k.same_id ∙ h.same_id;
  same_email = k.same_email ∙ h.same_email;
  same_role = k.same_role ∙ h.same_role;
  same_hash = k.same_hash ∙ h.same_hash;
  same_expiry = k.same_expiry ∙ h.same_expiry;
  used = Kept-trans t.used_at u.used_at v.used_at h.used k.used;
}

abbrev pub GrowsTokens : List AuthToken → List AuthToken → Type 0
GrowsTokens a b = Grows (λ t. Unit {0}) Spends a b

abbrev pub GrowsInvitations : List AuthInvitationToken → List AuthInvitationToken → Type 0
GrowsInvitations a b = Grows (λ t. Unit {0}) SpendsInvitation a b

pub tokens_refl : (a : List AuthToken) → GrowsTokens a a
tokens_refl a = Grows-refl Spends-refl a

pub tokens_trans : (a b c : List AuthToken) → GrowsTokens a b → GrowsTokens b c → GrowsTokens a c
tokens_trans a b c g h = Grows-trans Spends-trans (λ x y n r. tt) h g

pub tokens_enter :
    (now u : ℕ) (new : NewToken) (a : List AuthToken) → GrowsTokens a (inserted_token now u new ∷ a)
tokens_enter now u new a = enters (inserted_token now u new) tt (tokens_refl a)

pub mark-Spends : (now : ℕ) (t : AuthToken) → is_none t.used_at ≡ true → Spends t (mark_used now t)
mark-Spends now t h = record {
  same_id = refl;
  same_user = refl;
  same_hash = refl;
  same_expiry = refl;
  used = Kept-unset t.used_at _ h;
}

pub mark-SpendsInvitation :
    (now : ℕ) (t : AuthInvitationToken)
    → is_none t.used_at ≡ true
    → SpendsInvitation t (mark_invitation_used now t)
mark-SpendsInvitation now t h = record {
  same_id = refl;
  same_email = refl;
  same_role = refl;
  same_hash = refl;
  same_expiry = refl;
  used = Kept-unset t.used_at _ h;
}
