-- ===== src/Staking/Examples.antt =====
-- A small chain: weights and powers are the amounts themselves, two delegators and one validator.
-- One delegator becomes a proxy, and the other one binds to it.
use faxchain.Base.{
  ℕ, Option, ◌+◌, ◌-◌, ◌≡◌, ◌≤◌, ◌<◌, refl, true, false, not, ◌&&◌, none, some, List, [], ◌∷◌,
  is_in, ◌==◌, leb, if◌then◌else◌, arith, Bool-cases, inl, inr,
}
use faxchain.Base.Int.{ℤ, pos, negsuc, ◌+ℤ◌, ◌-ℤ◌, is_zero}
use faxchain.Staking.Delegator.{Delegator}
use faxchain.Staking.Result.{Result, ok, err}
use faxchain.Staking.Store.{Chain, Store}
use faxchain.Staking.Delegation.{Coin, Bank, Ledger, or_same}
use faxchain.Staking.Votes.Sound.{IsSound}
use faxchain.Staking.Dispatch.{
  Message, create_validator, deposit_msg, withdraw_msg, add_shares_msg, bind_proxy_msg,
  reg_proxy_msg, destroy_validator, handle, Reach, start, message,
}
use faxchain.Staking.Result.{add_shares_to_dismission}
use faxchain.Staking.Store.{Validator, unbonding, bonded, calculate_weight}
use faxchain.Staking.Votes.{existing, update_shares}
use faxchain.Staking.Votes.Kept.{Kept, update_shares-Kept}
use faxchain.Staking.Handlers.{is_dismissed}
use faxchain.Staking.Handlers.Outcomes.{handle_msg_add_shares-bounds, update_shares-dismissed}
use faxchain.Staking.Delegation.{UndelegationInfo, complete_all, complete_undelegation}
use faxchain.Staking.Dispatch.Proxies.{Stays, handle_msg_withdraw-Stays}
use faxchain.Staking.Validators.{new_validator}
use faxchain.Staking.Dispatch.Sound.{handle-IsSound, Reach-IsSound}
use faxchain.Staking.Dispatch.Timed.{
  IsTimed, is_key, is_due, is_paid, is_refused, handle-IsTimed, complete_all-IsTimed,
  complete_all-matured,
}
use faxchain.Staking.Dispatch.Stake.{stake, deposit-stake, withdraw-stake}
use faxchain.Staking.Status.{
  unbond_all_mature, bond_validator, begin_unbonding_validator, begun, begin_store,
}
use faxchain.Staking.Status.Queue.{
  IsQueued, waits, bond_validator-IsQueued, begin_unbonding_validator-IsQueued,
}
use faxchain.Base.Int.{eqb_ℤ}
use faxchain.Staking.Votes.{add_shares}
use faxchain.Staking.Votes.Sound.{own}
use faxchain.Staking.Votes.Sums.{total, count}
use faxchain.Staking.Handlers.Refines.{ballots, cast_ballot, gives, handle_msg_add_shares-refines}
use faxchain.Staking.Status.Indexed.{IsIndexed, gets_shares, Change-IsIndexed}
use faxchain.Staking.Status.Mature.{IsReady, unbond_all_mature-ok}
use faxchain.Staking.Dispatch.Invariant.{Reach-invariant, delegator_add_shares_invariant}

abbrev chain : Chain
chain = record {
  format_weeks = λ w. some w;
  mul = λ x w. x;
  consensus_power = λ x. x;
  one_dec = pos 1;
  min_delegation = pos 1;
  max_vals_to_add_shares = 3;
  bond_denom = 0;
  height = 100;
  now = 1700000000;
  unbonding_time = 10;
  level_up_height = 50;
  level_up_unbonding_time = 20;
}

-- A bank with the balance of the pool that pays undelegations: it refuses what it does not have.
abbrev pay_in : ℕ → ℤ → ℕ
pay_in b (pos x) = b + x
pay_in b (negsuc x) = b

abbrev pay_out : ℕ → ℤ → Option ℕ
pay_out b (pos x) = if leb x b then some (b - x) else none
pay_out b (negsuc x) = none

abbrev bank : Bank ℕ
bank = record {
  delegate_coins = λ b a x. some b;
  bonded_to_not_bonded = λ b x. some (pay_in b x.amount);
  undelegate_coins = λ b a x. pay_out b x.amount;
  default_bond_denom = 0;
}

abbrev empty_store : Store
empty_store = record {
  delegators = λ a. none;
  validators = λ a. none;
  by_cons_addr = λ a. none;
  shares = λ j a. none;
  bindings = λ p a. false;
  power_index = λ x a. false;
  last_powers = λ a. none;
  last_total_power = pos 0;
  validator_queue = λ t. [];
  abandoned = [];
  hooks = [];
}

abbrev empty : Ledger ℕ
empty = record {
  store = empty_store;
  bank = 0;
  undelegations = λ a. none;
  time_keys = λ t a. false;
}

abbrev or_store : Store → Result Store → Store
or_store s (ok s') = s'
or_store s (err _) = s

empty-IsSound : IsSound (pos 1) (1 ∷ 2 ∷ []) empty_store
empty-IsSound = record {
  home = λ a v p. absurd (cc);
  del_home = λ a d p. absurd (cc);
  roll = λ a d p. absurd (cc);
  apart = λ a d q p r. absurd (cc);
  voted = λ j v a p. absurd (cc);
  adds_up = λ j v p. absurd (cc);
}

abbrev coin : ℕ → Coin
coin n = record { denom = 0; amount = pos n }

abbrev after : Ledger ℕ → Message → Ledger ℕ
after l m = or_same l (handle chain bank l m)

abbrev m_created : Message
m_created = create_validator (record {
  validator_address = 7;
  cons_address = 70;
  delegator_address = 7;
  min_self_delegation = coin 10;
  is_described = true;
  is_supported = true;
})

abbrev created : Ledger ℕ
created = after empty m_created

abbrev m_deposited : Message
m_deposited = deposit_msg 1 (coin 5)

abbrev deposited : Ledger ℕ
deposited = after created m_deposited

abbrev m_deposited_twice : Message
m_deposited_twice = deposit_msg 2 (coin 4)

abbrev deposited_twice : Ledger ℕ
deposited_twice = after deposited m_deposited_twice

abbrev m_voted_for : Message
m_voted_for = add_shares_msg 1 (7 ∷ [])

abbrev voted_for : Ledger ℕ
voted_for = after deposited_twice m_voted_for

abbrev m_registered : Message
m_registered = reg_proxy_msg 1 true []

abbrev registered : Ledger ℕ
registered = after voted_for m_registered

abbrev m_bound : Message
m_bound = bind_proxy_msg 2 1

abbrev bound : Ledger ℕ
bound = after registered m_bound

abbrev m_withdrawn_some : Message
m_withdrawn_some = withdraw_msg 2 (coin 3)

abbrev withdrawn_some : Ledger ℕ
withdrawn_some = after bound m_withdrawn_some

reach_created : Reach bank (pos 1) (1 ∷ 2 ∷ []) empty created
unfolding handle ◌+ℤ◌ ◌-ℤ◌
reach_created = message chain empty created m_created start (λ a. (refl, refl)) refl refl

reach_deposited : Reach bank (pos 1) (1 ∷ 2 ∷ []) empty deposited
unfolding handle ◌+ℤ◌ ◌-ℤ◌
reach_deposited = message chain created deposited m_deposited reach_created refl refl refl

reach_deposited_twice : Reach bank (pos 1) (1 ∷ 2 ∷ []) empty deposited_twice
unfolding handle ◌+ℤ◌ ◌-ℤ◌
reach_deposited_twice =
    message chain deposited deposited_twice m_deposited_twice reach_deposited refl refl refl

reach_voted_for : Reach bank (pos 1) (1 ∷ 2 ∷ []) empty voted_for
unfolding handle ◌+ℤ◌ ◌-ℤ◌
reach_voted_for =
    message chain deposited_twice voted_for m_voted_for reach_deposited_twice tt refl refl

reach_registered : Reach bank (pos 1) (1 ∷ 2 ∷ []) empty registered
unfolding handle ◌+ℤ◌ ◌-ℤ◌
reach_registered = message chain voted_for registered m_registered reach_voted_for tt refl refl

reach_bound : Reach bank (pos 1) (1 ∷ 2 ∷ []) empty bound
unfolding handle ◌+ℤ◌ ◌-ℤ◌
reach_bound = message chain registered bound m_bound reach_registered tt refl refl

reach_withdrawn_some : Reach bank (pos 1) (1 ∷ 2 ∷ []) empty withdrawn_some
unfolding handle ◌+ℤ◌ ◌-ℤ◌
reach_withdrawn_some = message chain bound withdrawn_some m_withdrawn_some reach_bound tt refl refl

Reach-invariant_example :
    delegator_add_shares_invariant (pos 1) withdrawn_some.store (7 ∷ []) (1 ∷ 2 ∷ []) ≡ false
Reach-invariant_example =
    Reach-invariant bank (pos 1) (1 ∷ 2 ∷ []) (7 ∷ []) empty withdrawn_some empty-IsSound
      reach_withdrawn_some

registered-IsSound : IsSound (pos 1) (1 ∷ 2 ∷ []) registered.store
registered-IsSound =
    Reach-IsSound bank (pos 1) (1 ∷ 2 ∷ []) empty registered empty-IsSound reach_registered

handle-IsSound_example : IsSound (pos 1) (1 ∷ 2 ∷ []) bound.store
unfolding handle ◌+ℤ◌ ◌-ℤ◌
handle-IsSound_example =
    handle-IsSound chain bank (1 ∷ 2 ∷ []) registered bound m_bound registered-IsSound tt refl

bound-IsTimed : IsTimed bound
unfolding handle ◌+ℤ◌ ◌-ℤ◌
bound-IsTimed = record { home = λ a u p. absurd (cc); keyed = λ t a. refl }

handle-IsTimed_example : IsTimed withdrawn_some
unfolding handle ◌+ℤ◌ ◌-ℤ◌
handle-IsTimed_example =
    handle-IsTimed chain bank bound withdrawn_some m_withdrawn_some bound-IsTimed refl

bound-IsSound : IsSound (pos 1) (1 ∷ 2 ∷ []) bound.store
bound-IsSound = Reach-IsSound bank (pos 1) (1 ∷ 2 ∷ []) empty bound empty-IsSound reach_bound

deposit-stake_example : stake deposited_twice 2 ≡ stake deposited 2 +ℤ pos 4
unfolding handle ◌+ℤ◌ ◌-ℤ◌
deposit-stake_example =
    deposit-stake chain bank (1 ∷ 2 ∷ []) deposited deposited_twice 2 (coin 4) 2 refl
      (Reach-IsSound bank (pos 1) (1 ∷ 2 ∷ []) empty deposited empty-IsSound reach_deposited) refl

withdraw-stake_example : stake withdrawn_some 2 ≡ stake bound 2
unfolding handle ◌+ℤ◌ ◌-ℤ◌
withdraw-stake_example =
    withdraw-stake chain bank (1 ∷ 2 ∷ []) bound withdrawn_some 2 (coin 3) 2 bound-IsSound
      bound-IsTimed refl

-- A second withdrawal, five seconds later.
abbrev later : Chain
later = record chain { now = 1700000005 }

abbrev twice_withdrawn : Ledger ℕ
twice_withdrawn =
    or_same withdrawn_some (handle later bank withdrawn_some (withdraw_msg 1 (coin 1)))

-- The block at the time of the first one.
abbrev due_chain : Chain
due_chain = record chain { now = 1700000020 }

abbrev due_keys : List (ℕ × ℕ)
due_keys = (1700000020, 2) ∷ []

-- The block where both are due, with a pool that has lost too much to pay the first one.
abbrev late_chain : Chain
late_chain = record chain { now = 1700000030 }

abbrev short_pool : Ledger ℕ
short_pool = record twice_withdrawn { bank = 2 }

abbrev both_keys : List (ℕ × ℕ)
both_keys = (1700000020, 2) ∷ (1700000025, 1) ∷ []

abbrev waiting : UndelegationInfo
waiting = record { delegator_address = 1; quantity = pos 1; completion_time = 1700000025 }

twice-IsTimed : IsTimed twice_withdrawn
unfolding handle ◌+ℤ◌ ◌-ℤ◌
twice-IsTimed =
    handle-IsTimed later bank withdrawn_some twice_withdrawn (withdraw_msg 1 (coin 1))
      (handle-IsTimed chain bank bound withdrawn_some m_withdrawn_some bound-IsTimed refl) refl

short_pool-IsTimed : IsTimed short_pool
short_pool-IsTimed = record { home = twice-IsTimed.home; keyed = twice-IsTimed.keyed }

both_keys_due : (t a : ℕ) → is_key t a both_keys ≡ true → short_pool.time_keys t a ≡ true
unfolding handle ◌+ℤ◌ ◌-ℤ◌ is_key
both_keys_due t a key = ground (arith, key)

complete_all-IsTimed_example :
    ((complete_all late_chain bank short_pool both_keys).store ≡ short_pool.store)
    × ((t a : ℕ)
        → (complete_all late_chain bank short_pool both_keys).time_keys t a
          ≡ (short_pool.time_keys t a && not (is_key t a both_keys)))
    × ((a : ℕ)
        → (complete_all late_chain bank short_pool both_keys).undelegations a ≡ (
            if is_paid late_chain bank short_pool both_keys a
            then none
            else short_pool.undelegations a))
    × ((t a : ℕ)
        → is_refused late_chain bank short_pool both_keys a ≡ false
        → (complete_all late_chain bank short_pool both_keys).time_keys t a
          ≡ is_due ((complete_all late_chain bank short_pool both_keys).undelegations a) t)
complete_all-IsTimed_example =
    complete_all-IsTimed late_chain bank both_keys short_pool short_pool-IsTimed both_keys_due

-- The first one is refused and the second one paid.
one_refused :
    (is_refused late_chain bank short_pool both_keys 2 ≡ true)
    × (is_paid late_chain bank short_pool both_keys 2 ≡ false)
    × (is_paid late_chain bank short_pool both_keys 1 ≡ true)
unfolding handle is_refused is_paid complete_undelegation ◌+ℤ◌ ◌-ℤ◌
one_refused = (refl, refl, refl)

due_keys_all : (t a : ℕ) → is_key t a due_keys ≡ (twice_withdrawn.time_keys t a && leb t 1700000020)
unfolding handle ◌+ℤ◌ ◌-ℤ◌ is_key
due_keys_all t a = ground arith

complete_all-matured_example : 1700000020 < waiting.completion_time
unfolding handle complete_all is_refused ◌+ℤ◌ ◌-ℤ◌
complete_all-matured_example =
    complete_all-matured due_chain bank due_keys twice_withdrawn twice-IsTimed due_keys_all 1
      waiting refl refl

update_shares-Kept_example :
    Kept 1 bound.store (or_store bound.store (update_shares chain bound.store 1 (pos 9)))
unfolding handle update_shares ◌+ℤ◌ ◌-ℤ◌
update_shares-Kept_example =
    update_shares-Kept chain (1 ∷ 2 ∷ []) bound.store
      (or_store bound.store (update_shares chain bound.store 1 (pos 9))) 1 (pos 9) bound-IsSound
      refl

abbrev proxy_one : Delegator ℤ
proxy_one = record {
  delegator_address = 1;
  validator_addresses = 7 ∷ [];
  shares = pos 9;
  tokens = pos 5;
  is_proxy = true;
  total_delegated_tokens = pos 4;
  proxy_address = none;
}

-- The proxy withdraws a part of its tokens.
abbrev proxy_withdrew : Ledger ℕ
proxy_withdrew = after bound (withdraw_msg 1 (coin 2))

handle_msg_withdraw-Stays_example :
    (is_zero (proxy_one.tokens -ℤ pos 2) ≡ false)
    × Stays proxy_withdrew.store 1 (record proxy_one { tokens = proxy_one.tokens -ℤ pos 2 })
unfolding handle ◌+ℤ◌ ◌-ℤ◌
handle_msg_withdraw-Stays_example =
    handle_msg_withdraw-Stays chain (1 ∷ 2 ∷ []) bank bound proxy_withdrew 1 (coin 2) proxy_one
      bound-IsSound refl refl refl

handle_msg_add_shares-bounds_example :
    (1 ≤ 1)
    × (1 ≤ 3)
    × ((d : Delegator ℤ) × (x : ℤ) × (deposited_twice.store.delegators 1 ≡ some d)
        × (calculate_weight chain (d.tokens +ℤ d.total_delegated_tokens) ≡ some x)
        × (voted_for.store.delegators 1
            ≡ some (record d { validator_addresses = 7 ∷ []; shares = x })))
unfolding handle ◌+ℤ◌ ◌-ℤ◌
handle_msg_add_shares-bounds_example =
    handle_msg_add_shares-bounds chain (1 ∷ 2 ∷ []) deposited_twice.store voted_for.store 1 (7 ∷ [])
      (Reach-IsSound bank (pos 1) (1 ∷ 2 ∷ []) empty deposited_twice empty-IsSound
        reach_deposited_twice)
      refl

-- The validator is destroyed while the proxy has shares of it.
abbrev left_behind : Ledger ℕ
left_behind = after bound (destroy_validator 7)

update_shares-dismissed_example :
    update_shares chain left_behind.store 1 (pos 6) ≡ err add_shares_to_dismission
unfolding handle existing is_dismissed calculate_weight ◌+ℤ◌ ◌-ℤ◌
update_shares-dismissed_example =
    update_shares-dismissed chain left_behind.store 1 proxy_one (pos 6) (pos 6) refl refl refl

abbrev unbonds : Validator
unbonds = record (new_validator 7 70 (pos 0)) { status = unbonding; unbonding_completion_time = 50 }

abbrev queued : Store
queued = record empty_store {
  validators = λ a. if a == 7 then some unbonds else none;
  validator_queue = λ t. if t == 50 then 7 ∷ [] else [];
}

queued-IsQueued : IsQueued queued
unfolding new_validator
queued-IsQueued t a = elim (Bool-cases (t == 50)) [
  | inl same ↦ rw same (ground (arith, same))
  | inr other ↦ rw other (ground (arith, other))
]

queued-IsReady : IsReady queued
unfolding new_validator
queued-IsReady = record {
  home = λ a v p. ground (arith, p);
  no_tokens = λ a v p. ground (arith, p);
}

unbond_all_mature-ok_example :
    (s' : Store) × (unbond_all_mature chain queued (50 ∷ []) ≡ ok s')
    × IsReady s'
    × IsQueued s'
    × ((t a : ℕ)
        → waits (s'.validators a) t
          ≡ (if is_in t (50 ∷ []) then 0 else waits (queued.validators a) t))
unbond_all_mature-ok_example =
    unbond_all_mature-ok chain (50 ∷ []) queued queued-IsReady queued-IsQueued

bond_validator-IsQueued_example :
    IsQueued (bond_validator chain queued unbonds).0
    × ((bond_validator chain queued unbonds).0.validators 7
        ≡ some (record unbonds { status = bonded }))
    × ((t : ℕ) → count 7 ((bond_validator chain queued unbonds).0.validator_queue t) ≡ 0)
    × ((a : ℕ)
        → (a == 7) ≡ false
        → ((bond_validator chain queued unbonds).0.validators a ≡ queued.validators a)
          × ((t : ℕ)
              → count a ((bond_validator chain queued unbonds).0.validator_queue t)
                ≡ count a (queued.validator_queue t)))
unfolding new_validator
bond_validator-IsQueued_example = bond_validator-IsQueued chain queued unbonds refl queued-IsQueued

abbrev bonds_now : Validator
bonds_now = record unbonds { status = bonded }

abbrev one_bonded : Store
one_bonded = record empty_store { validators = λ a. if a == 7 then some bonds_now else none }

one_bonded-IsQueued : IsQueued one_bonded
unfolding new_validator
one_bonded-IsQueued t a = ground arith

abbrev unbonding_begun : Store
unbonding_begun = begin_store chain one_bonded bonds_now (begun chain bonds_now)

begin_unbonding_validator-IsQueued_example :
    IsQueued unbonding_begun
    × (unbonding_begun.validators 7
        ≡ some (record bonds_now {
          status = unbonding;
          unbonding_completion_time = 1700000010;
          unbonding_height = 100;
        }))
    × ((t : ℕ) → count 7 (unbonding_begun.validator_queue t) ≡ (if t == 1700000010 then 1 else 0))
    × ((a : ℕ)
        → (a == 7) ≡ false
        → (unbonding_begun.validators a ≡ one_bonded.validators a)
          × ((t : ℕ)
              → count a (unbonding_begun.validator_queue t)
                ≡ count a (one_bonded.validator_queue t)))
unfolding new_validator begin_unbonding_validator
begin_unbonding_validator-IsQueued_example =
    begin_unbonding_validator-IsQueued chain one_bonded bonds_now
      (unbonding_begun, begun chain bonds_now) refl one_bonded-IsQueued refl

handle_msg_add_shares-refines_example :
    (x : ℤ) × ((i : ℕ)
      → ballots voted_for.store i ≡ cast_ballot 1 (7 ∷ [], x) (ballots deposited_twice.store) i)
    × ((j : ℕ) (v : Validator)
        → voted_for.store.validators j ≡ some v
        → v.delegator_shares
          ≡ own (pos 1) v
            +ℤ total
                (1 ∷ 2 ∷ [])
                (λ i. gives (cast_ballot 1 (7 ∷ [], x) (ballots deposited_twice.store) i) j))
unfolding handle ◌+ℤ◌ ◌-ℤ◌
handle_msg_add_shares-refines_example =
    handle_msg_add_shares-refines chain (1 ∷ 2 ∷ []) deposited_twice.store voted_for.store 1
      (7 ∷ [])
      (Reach-IsSound bank (pos 1) (1 ∷ 2 ∷ []) empty deposited_twice empty-IsSound
        reach_deposited_twice)
      refl

-- One validator that is bonded, at its power 0 in the index.
abbrev ranked : Store
ranked = record one_bonded { power_index = λ x a. eqb_ℤ x (pos 0) && (a == 7) }

ranked-IsIndexed : IsIndexed chain ranked
unfolding new_validator
ranked-IsIndexed x a = ground arith

Change-IsIndexed_example : IsIndexed chain (add_shares chain 2 ranked bonds_now (pos 4))
unfolding new_validator
Change-IsIndexed_example =
    Change-IsIndexed chain ranked (add_shares chain 2 ranked bonds_now (pos 4)) ranked-IsIndexed
      (gets_shares ranked bonds_now 2 (pos 4) refl)
