-- ===== src/Lib.antt =====
-- The EVM state database of the chain (evm/types) and its staking module (staking). The Ethereum
-- virtual machine reads and writes the database while it runs a transaction, and takes back what a
-- failed call did. The staking module keeps who delegates how much, to whom it gives votes, and
-- which validators sign blocks.
--
-- The database (`CommitStateDB`, evm/types/statedb.go) keeps live account objects
-- (evm/types/state_object.go) over the committed stores. Each change puts an entry on a journal
-- (evm/types/journal.go), with a count of the changes of each account; a snapshot is a length of
-- the journal, and a revert undoes the entries beyond it. The access list
-- (evm/types/access_list.go) is one of the parts that the journal covers.
--
-- Files and what they model:
--   Base                  the names shared by all, slices (Lists), Go maps (Maps), panics (Fault)
--   Evm.Table             a slice with an index map: stateObjects with addressToObjectIndex,
--                         preimages with hashToPreimageIndex, the storage caches of an object
--   Evm.AccessList        accessList and its operations
--   Evm.Dirties           journal.dirties, addDirty, getDirty, substractDirty, deleteDirty
--   Evm.StateObject       stateObject, newStateObject, its setters and getters
--   Evm.Journal           the journal entries, the logs, the fields of CommitStateDB
--   Evm.StateDb           the operations of CommitStateDB and the journaled ones of an object
--   Evm.StateDb.View      what an account answers, without the caches
--   Evm.StateDb.WellFormed  the invariant of the database
--   Evm.Snapshot          the revert methods, journal.revert, Snapshot, RevertToSnapshot
--   Evm.Snapshot.Restore  the calls of the EVM and the theorem on snapshots
--   Evm.Snapshot.Panics   where the setters panic
--   Evm.Getters           the reads of the EVM, and in Reads that they answer with the view
--   Evm.Commit            commitState
--   Evm.Finalise          Finalise, Reset and what they call
--   Evm.Registers         height hashes, whitelist, blocked list, preimages, ForEachStorage
--   Evm.Tests             concrete runs
--   Staking.Delegator     the record of a delegator with its proxy
--   Staking.Result        results and errors of the handlers
--   Staking.Store         the store of the keeper: keeper/delegator.go, shares.go, validator.go,
--                         weight.go
--   Staking.Votes         keeper/proxy.go and UpdateProxy; in Effects what its loops do, in Sums
--                         the shares of a validator, in Sound when a store is sound, in
--                         Preserve, Recast and Kept what a change of shares keeps
--   Staking.Handlers      handler_shares.go and ClearProxy, with proofs in Sound, Messages,
--                         Revote, Outcomes and Refines
--   Staking.Delegation    keeper/delegation.go, with proofs in Sound and Tokens
--   Staking.Validators    keeper/min_self_delegation.go and the messages on validators of handler.go
--   Staking.Dispatch      NewHandler and the blocks; in Inversion what a successful message did, in
--                         Sound, Timed, Stake and Proxies what messages keep, in Invariant
--                         DelegatorAddSharesInvariant of keeper/invariants.go
--   Staking.Status        keeper/val_state_change.go and the queue of keeper/validator.go, with
--                         proofs in Queue, Mature and Indexed
--   Staking.Tests, Staking.Examples  concrete runs
--
-- The parts interact so: a message (Dispatch) is handled by Handlers, Delegation or Validators,
-- which change the shares by Votes; Votes and Status read and write the Store. The end of a block
-- completes undelegations (Delegation) and unbonds validators (Status).
--
-- How the model corresponds to the code: an operation is a function from the database to the
-- database, in Option where the code can panic. A method that works through a pointer fetches the
-- object, changes it and writes it back under its address, since the database holds the only other
-- reference. Addresses and hashes are numbers. Amounts are the raw integers of the decimals; the
-- calls pass none that are negative. The journal stands newest first. `uint` and `uint64` counters
-- wrap at 2 ^ 64. The account mapper holds an EthAccount or an account of another type, at which
-- newStateObject panics. Loops are recursions over the slices they range over, so there is no fuel.
--
-- In the staking module a handler is a function from the store to a result. An error or a panic
-- ends the transaction and takes back its writes, so an error carries no store. Decimals are their
-- raw integers, and a product with -1 is the negative. What an iterator over the store yields,
-- such as the keys that are due or those who are bound to a proxy, is an argument. The hooks of
-- other modules are kept as a list of calls, and a panic of a hook, such as that of
-- distribution/keeper/hooks.go, is outside the model. An empty slice of the queue and a missing
-- one are the same.
--
-- Parameters: Keccak256, the blacklist of the bank, the largest decimal that sdk.Dec adds up to,
-- the decimals of a delegator; for the staking module the printing and parsing of the week rate,
-- the product of decimals, the power of shares (QuoInt and Int64), the parameters of the chain,
-- and the supply keeper (Bank), each call of which may fail. The account mapper and the other
-- stores are functions from keys.
--
-- Not modelled: Commit and commitCode, which tell a nil code from an empty one, locks, contexts
-- and codecs, the fields that nothing reads (`dbErr` of an object), the parameters' cache,
-- `UpdateAccounts`, denominations other than the bond denomination, the cache of decoded
-- validators, descriptions and commissions, the election of validators over the power index, and
-- the other modules of the chain.
pub mod Base
pub mod Evm
pub mod Staking
