-- ===== src/Runtime/Entry.antt =====
-- What runtime.rs checks before an entry, and that a claimed entry refuses the next one.
use polyrust.Prelude.{◌≡◌, ◌≢◌, true, false, Option, none, some, arith}
use polyrust.Prelude.Int.{ℤ, pos, ◌<ℤ◌}
use polyrust.Prelude.Map.{lookup}
use polyrust.Types.{OrderSide, TokenId}
use polyrust.Inventory.{
  Inventory, SubmitId, PendingSubmit, claim_entry, has_entry_exposure_or_pending, owned_atoms,
}
use polyrust.Inventory.SubmitStatus.{expired_unknown}
use polyrust.Inventory.Claims.{claim_entry_blocks, entry_allowed_only}
use polyrust.State.{RuntimeState, MarketContext, Quote}
use polyrust.Signal.{BuyIntent}
use polyrust.Runtime.{
  RuntimeCore, intent_unless_exposed, on_sample, on_binance_sample, entry_gate_block,
}

on_sample_unexposed :
    (s : RuntimeState) (inv : Inventory) (engine : MarketContext → Quote → Quote → Option BuyIntent)
    (intent : BuyIntent)
    → on_sample s inv engine ≡ some intent
    → (s.trading_active ≡ true) × (has_entry_exposure_or_pending inv intent.token ≡ false)
unfolding on_sample intent_unless_exposed
on_sample_unexposed s inv engine intent e = ground arith

gate_and_sample :
    (c : RuntimeCore) (engine : MarketContext → Quote → Quote → Option BuyIntent) (now : ℤ)
    (intent : BuyIntent)
    → on_binance_sample c engine now ≡ some intent
    → (entry_gate_block c intent now ≡ none) × (on_sample c.state c.inventory engine ≡ some intent)
unfolding on_binance_sample
gate_and_sample c engine now intent e = ground arith

-- An entry that the core returns has passed every gate; trading is active, the user channel is
-- trusted, and less than the sell quantum of the token is owned.
pub entry_is_clear :
    (c : RuntimeCore) (engine : MarketContext → Quote → Quote → Option BuyIntent) (now : ℤ)
    (intent : BuyIntent)
    → on_binance_sample c engine now ≡ some intent
    → (entry_gate_block c intent now ≡ none)
      × (c.state.trading_active ≡ true)
      × (c.inventory.user_wss_trusted ≡ true)
      × (owned_atoms c.inventory intent.token <ℤ pos 10_000)
entry_is_clear c engine now intent e =
    let (passed, sampled) = gate_and_sample c engine now intent e in
    let (active, clear) = on_sample_unexposed c.state c.inventory engine intent sampled in
    let (trusted, owned, _) = entry_allowed_only c.inventory intent.token clear in
    (passed, active, trusted, owned)

-- When the core returns an entry, each submit of its token has been given up as unknown.
pub entry_submits_given_up :
    (c : RuntimeCore) (engine : MarketContext → Quote → Quote → Option BuyIntent) (now : ℤ)
    (intent : BuyIntent) (k : SubmitId) (p : PendingSubmit)
    → on_binance_sample c engine now ≡ some intent
    → lookup k c.inventory.pending ≡ some p
    → p.token ≡ intent.token
    → p.status ≡ expired_unknown
entry_submits_given_up c engine now intent k p e l t =
    let (_, sampled) = gate_and_sample c engine now intent e in
    let (_, clear) = on_sample_unexposed c.state c.inventory engine intent sampled in
    let (_, _, given_up) = entry_allowed_only c.inventory intent.token clear in given_up k p l t

-- Right after the claim of a token, no sample returns an intent of that token, whatever the signal
-- engine answers.
pub claimed_token_refused :
    (c : RuntimeCore) (engine : MarketContext → Quote → Quote → Option BuyIntent) (now : ℤ)
    (token : TokenId) (side : OrderSide) (size claimed_at : ℤ) (intent : BuyIntent)
    → intent.token ≡ token
    → on_binance_sample
        (record c { inventory = (claim_entry c.inventory token side size claimed_at).0 })
        engine
        now
      ≢ some intent
unfolding on_binance_sample
claimed_token_refused c engine now token side size claimed_at intent same e =
    let inv = (claim_entry c.inventory token side size claimed_at).0 in
    let (_, clear) = on_sample_unexposed c.state inv engine intent (ground arith) in
    cc (clear, same, claim_entry_blocks c.inventory token side size claimed_at)
