-- ===== src/Staking/Dispatch.antt =====
-- The messages of the staking module and what handles each (`NewHandler` of staking/handler.go). A
-- message that fails leaves no trace, as its transaction is taken back.
pub mod Sound
pub mod Invariant
pub mod Proxies
pub mod Timed
pub mod Stake
pub mod Inversion
use faxchain.Base.{ℕ, ◌≡◌, Bool, Option, none, List, [], ◌∷◌}
use faxchain.Base.Int.{ℤ}
use faxchain.Staking.Result.{Result, ok, err, ◌>>=◌}
use faxchain.Staking.Store.{Chain, Store}
use faxchain.Staking.Handlers.{
  handle_msg_bind_proxy, handle_msg_unbind_proxy, handle_reg_proxy, handle_msg_add_shares,
}
use faxchain.Staking.Delegation.{
  Coin, Bank, Ledger, handle_msg_deposit, handle_msg_withdraw, complete_all,
}
use faxchain.Staking.Validators.{
  MsgCreateValidator, handle_msg_create_validator, handle_msg_edit_validator,
  handle_msg_destroy_validator,
}
use faxchain.Staking.Votes.Sound.{vote}
use faxchain.Staking.Votes.Sums.{count}

-- To deregister a proxy comes with the keys of those who are bound to it, as they are iterated.
pub data Message : Type 0 where
  create_validator : MsgCreateValidator → Message
  edit_validator : ℕ → Bool → Message
  deposit_msg withdraw_msg : ℕ → Coin → Message
  add_shares_msg : ℕ → List ℕ → Message
  bind_proxy_msg : ℕ → ℕ → Message
  unbind_proxy_msg : ℕ → Message
  reg_proxy_msg : ℕ → Bool → List ℕ → Message
  destroy_validator : ℕ → Message

module _ {B : Type 0} where
  abbrev pub on_store : Ledger B → Result Store → Result (Ledger B)
  on_store l r = r >>= λ s. ok (record l { store = s })

  unfoldable pub handle : Chain → Bank B → Ledger B → Message → Result (Ledger B)
  unfolding handle_msg_create_validator handle_msg_edit_validator handle_msg_deposit
      handle_msg_withdraw handle_msg_add_shares handle_msg_bind_proxy handle_msg_unbind_proxy
      handle_reg_proxy handle_msg_destroy_validator
  handle c k l (create_validator msg) = handle_msg_create_validator c k l msg
  handle c k l (edit_validator a is_described) = handle_msg_edit_validator c k l a is_described
  handle c k l (deposit_msg a token) = handle_msg_deposit c k l a token
  handle c k l (withdraw_msg a token) = handle_msg_withdraw c k l a token
  handle c k l (add_shares_msg a names) = on_store l (handle_msg_add_shares c l.store a names)
  handle c k l (bind_proxy_msg a p) = on_store l (handle_msg_bind_proxy c l.store a p)
  handle c k l (unbind_proxy_msg a) = on_store l (handle_msg_unbind_proxy c l.store a)
  handle c k l (reg_proxy_msg a reg bound) = on_store l (handle_reg_proxy c l.store a reg bound)
  handle c k l (destroy_validator a) = handle_msg_destroy_validator c k l a

  -- The addresses hold all who deposit, and no votes are left where a validator is created.
  abbrev pub IsAdmissible : List ℕ → Ledger B → Message → Type 0
  IsAdmissible addrs l (deposit_msg a token) = count a addrs ≡ 1
  IsAdmissible addrs l (create_validator msg) =
      (a : ℕ)
      → (l.store.shares msg.validator_address a ≡ none)
        × (vote (l.store.delegators a) msg.validator_address ≡ none)
  IsAdmissible addrs l _ = Unit

  -- Blocks: messages under the parameters of a block, and the completions of undelegations at its
  -- end.
  pub data Reach (k : Bank B) (one : ℤ) (addrs : List ℕ) (l₀ : Ledger B) : Ledger B → Type 0 where
    start : Reach k one addrs l₀ l₀
    message :
        (c : Chain) (l l' : Ledger B) (m : Message)
        → Reach k one addrs l₀ l
        → IsAdmissible addrs l m
        → c.one_dec ≡ one
        → handle c k l m ≡ ok l'
        → Reach k one addrs l₀ l'
    complete :
        (c : Chain) (l : Ledger B) (keys : List (ℕ × ℕ))
        → Reach k one addrs l₀ l
        → Reach k one addrs l₀ (complete_all c k l keys)
