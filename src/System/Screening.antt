-- ===== src/System/Screening.antt =====
-- Who can take part in a subscription or a redemption, by the state of the lists.
use usdx_v.Base.{ℕ, ◌≡◌, ◌≢◌, refl, arith, true, false, not, ◌||◌, inl, inr, Bool}
use usdx_v.Evm.{Result, ok, ◌>>=◌, Result-cases}
use usdx_v.Access.{AccessControl}
use usdx_v.Compliance.Allowlist
use usdx_v.Compliance.Allowlist.{Signatures}
use usdx_v.Compliance.Blocklist
use usdx_v.Compliance.Token.{before_token_transfer, before_token_transfer_iff}
use usdx_v.Hub.State.{Hub}
use usdx_v.Hub.Subscribe.{request_subscription, claim_one, check_restrictions}
use usdx_v.Hub.Peers.{Peers}
use usdx_v.Hub.Redeeming.{request_redemption-IsRequested, redeem_one-IsRedeemed}
use usdx_v.Hub.Claiming.{claim_one_mints}
use usdx_v.Hub.Redeem.{
  request_redemption, request_redemption_serviced_off_chain, redeem_one, burn_rwa,
}
use usdx_v.System.Parts.{Outside, World, Usdx, list_rules, contract_peers, mint, burn_from}

-- A step of a user's business with the manager: the three requests, the claim of one deposit and the
-- round of `claimRedemption` for one redemption.
pub data Deal : Type 0 where
  subscribe redeem : (sender amount : ℕ) → Deal
  redeem_off_chain : (sender amount destination : ℕ) → Deal
  claim : (now deposit_id : ℕ) → Deal
  settle : (redemption_id : ℕ) → Deal

module _ {R : Type 0} ⦃p : Peers⦄ where
  request_subscription_checks :
      (sender amount : ℕ) (h h' : Hub R p.World)
      → request_subscription sender amount h ≡ ok h'
      → check_restrictions h sender ≡ ok tt
  unfolding request_subscription
  request_subscription_checks sender amount h h' e = ground arith

  off_chain_burns :
      (sender amount destination : ℕ) (h h' : Hub R p.World)
      → request_redemption_serviced_off_chain sender amount destination h ≡ ok h'
      → p.burn_from h.rwa h.self sender amount h.world ≡ ok h'.world
  unfolding request_redemption_serviced_off_chain burn_rwa
  off_chain_burns sender amount destination h h' e = ground arith

module _ ⦃ac : AccessControl⦄ ⦃sig : Signatures⦄ ⦃o : Outside⦄ where
  abbrev pub Manager : Type 0
  Manager = Hub ac.Roles World

  unfoldable pub run : Deal → Manager → Result Manager
  run (subscribe sender amount) h = request_subscription ⦃p = contract_peers⦄ sender amount h
  run (redeem sender amount) h = request_redemption ⦃p = contract_peers⦄ sender amount h
  run (redeem_off_chain sender amount destination) h =
      request_redemption_serviced_off_chain ⦃p = contract_peers⦄ sender amount destination h
  run (claim now id) h = claim_one ⦃p = contract_peers⦄ now id h
  run (settle id) h = redeem_one ⦃p = contract_peers⦄ id h >>= λ r. ok r.1

  -- Whose business it is.
  unfoldable pub party : Deal → Manager → ℕ
  party (subscribe sender amount) h = sender
  party (redeem sender amount) h = sender
  party (redeem_off_chain sender amount destination) h = sender
  party (claim now id) h = (h.deposits id).user
  party (settle id) h = (h.redemptions id).user

  -- Whether it mints or burns USDX.
  unfoldable pub moves_usdx : Deal → Bool
  moves_usdx (subscribe _ _) = false
  moves_usdx (redeem _ _) = true
  moves_usdx (redeem_off_chain _ _ _) = true
  moves_usdx (claim _ _) = true
  moves_usdx (settle _) = false

  -- The lists of the world let the account hold USDX.
  pub record IsListed (w : World) (a : ℕ) : Type 0 where
    pub not_blocked : Blocklist.is_blocked w.token.world.blocklist a ≡ false
    pub allowed : Allowlist.is_allowed a w.token.world.allowlist ≡ true

  mint-IsListed :
      (rwa caller to amount : ℕ) (w w' : World)
      → contract_peers.mint rwa caller to amount w ≡ ok w'
      → to ≢ 0
      → IsListed w to
  unfolding mint
  mint-IsListed rwa caller to amount w w' e nz =
      let passed : before_token_transfer ⦃p = list_rules⦄ caller 0 to amount w.token ≡ ok tt =
        ground arith in
      let (b, cs, cf, ct) =
        (before_token_transfer_iff ⦃p = list_rules⦄ caller 0 to amount w.token).0 passed in
      let c = ct nz in
      record { not_blocked = ground (arith, c.not_blocked); allowed = ground (arith, c.allowed) }

  burn_from-IsListed :
      (rwa caller from amount : ℕ) (w w' : World)
      → contract_peers.burn_from rwa caller from amount w ≡ ok w'
      → from ≢ 0
      → IsListed w from
  unfolding burn_from
  burn_from-IsListed rwa caller from amount w w' e nz =
      elim (Result-cases (o.spend_allowance from caller amount w.token.world.rest)) [
        | inr (x, stop) ↦ absurd (ground arith)
        | inl (rest, spent) ↦
            let t : Usdx = record w.token { world = record w.token.world { rest = rest } } in
            let passed : before_token_transfer ⦃p = list_rules⦄ caller from 0 amount t ≡ ok tt =
              ground arith in
            let (b, cs, cf, ct) =
              (before_token_transfer_iff ⦃p = list_rules⦄ caller from 0 amount t).0 passed in
            let c = cf nz in
            record {
              not_blocked = ground (arith, c.not_blocked);
              allowed = ground (arith, c.allowed);
            }
      ]

  check_restrictions-NotBlocked :
      (h : Manager) (a : ℕ)
      → check_restrictions ⦃p = contract_peers⦄ h a ≡ ok tt
      → Blocklist.is_blocked h.world.token.world.blocklist a ≡ false
  unfolding check_restrictions
  check_restrictions-NotBlocked h a e = ground arith

  -- A step of a user's business that goes through found the user not on the blocklist, and, where it
  -- mints or burns USDX, on the allowlist. The user is not the zero address.
  pub run-IsScreened :
      (d : Deal) (h h' : Manager)
      → run d h ≡ ok h'
      → party d h ≢ 0
      → (Blocklist.is_blocked h.world.token.world.blocklist (party d h) ≡ false)
        × ((not (moves_usdx d) || Allowlist.is_allowed (party d h) h.world.token.world.allowlist)
            ≡ true)
  unfolding run party moves_usdx
  run-IsScreened (subscribe sender amount) h h' e nz =
      let checked = request_subscription_checks ⦃p = contract_peers⦄ sender amount h h' e in
      (check_restrictions-NotBlocked h sender checked, refl)
  run-IsScreened (redeem sender amount) h h' e nz =
      let r = request_redemption-IsRequested ⦃p = contract_peers⦄ sender amount h h' e in
      let l = burn_from-IsListed h.rwa h.self sender amount h.world h'.world r.burned nz in
      (l.not_blocked, l.allowed)
  run-IsScreened (redeem_off_chain sender amount destination) h h' e nz =
      let burned = off_chain_burns ⦃p = contract_peers⦄ sender amount destination h h' e in
      let l = burn_from-IsListed h.rwa h.self sender amount h.world h'.world burned nz in
      (l.not_blocked, l.allowed)
  run-IsScreened (claim now id) h h' e nz =
      let (price, owed, priced, amount, minted) =
        claim_one_mints ⦃p = contract_peers⦄ now id h h' e in
      let l = mint-IsListed h.rwa h.self (h.deposits id).user owed h.world h'.world minted nz in
      (l.not_blocked, l.allowed)
  run-IsScreened (settle id) h h' e nz =
      elim (Result-cases (redeem_one ⦃p = contract_peers⦄ id h)) [
        | inr (x, stop) ↦ absurd (ground arith)
        | inl (r, one) ↦
            let c = redeem_one-IsRedeemed ⦃p = contract_peers⦄ id h r one in
            (check_restrictions-NotBlocked h (h.redemptions id).user c.was_unrestricted, refl)
      ]
