-- ===== src/Membership/Reads.antt =====
-- The reads of backend/app/services/channel_service.py.
use messaging_system.Base.{ℕ, Result-cases, inl, inr}
use messaging_system.Base.Text.{Text}
use messaging_system.Store.Leads.{Reads, reads_rules}
use messaging_system.Membership.{get_channel_for_update, get_membership, require_membership}
use messaging_system.Membership.Invites.{valid_invite, validate_invite}

pub Reads-channel : (c : ℕ) → Reads (get_channel_for_update c)
unfolding get_channel_for_update
Reads-channel c = search reads_rules

pub Reads-get : (c u : ℕ) → Reads (get_membership c u)
unfolding get_membership
Reads-get c u = search reads_rules

pub Reads-required : (c u : ℕ) → Reads (require_membership c u)
unfolding require_membership
Reads-required c u = search (reads_rules, Reads-get)

module _ (str_lower sha256_hex : Text → Text) where
  pub Reads-validate :
      (now c : ℕ) (token : Text) (u : ℕ)
      → Reads (validate_invite str_lower sha256_hex now c token u)
  unfolding validate_invite
  Reads-validate now c token u = record {
    same = λ db db' a h. elim (Result-cases (valid_invite str_lower sha256_hex now c token u db)) [
      | inl (found, e) ↦ cc (rw (e, validate_invite) at h)
      | inr (x, e) ↦ absurd (cc (rw (e, validate_invite) at h))
    ];
  }
