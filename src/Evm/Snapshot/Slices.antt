-- ===== src/Evm/Snapshot/Slices.antt =====
-- Refunds, logs, preimages and the access list can be reverted.
use faxchain.Base.{
  ℕ, ◌+◌, ◌-◌, ◌%◌, ◌<◌, ◌≡◌, refl, sym, ap, ap₂, ◌∙◌, subst, Bool, true, false, Option, none, some,
  List, [], ◌∷◌, ◌++◌, arith, ltb, ◌>>=◌, put_key, some_inj, Option-cases, Bool-cases, inl, inr,
}
use faxchain.Evm.Table.{get, put, remove}
use faxchain.Evm.Table.Laws.{put-IsIndexed, get-put}
use faxchain.Evm.Table.Removal.{put-IsExact, get-remove, remove-IsIndexed, remove-IsExact}
use faxchain.Evm.AccessList.{
  AccessList, SlotIndex, no_slots, add_address, add_slot, delete_address, delete_slot, open_slots,
}
use faxchain.Evm.AccessList.Lifo
use faxchain.Evm.Dirties.Lifo.{IsTracked}
use faxchain.Evm.StateObject.{Env}
use faxchain.Evm.Journal.{
  JournalEntry, refund_change, add_log_change, add_preimage_change, access_list_add_account_change,
  access_list_add_slot_change, dirtied, Log, StateDb,
}
use faxchain.Evm.StateDb.{
  append_entry, append_if, add_refund, sub_refund, add_log, add_preimage,
  add_address_to_access_list, add_slot_to_access_list, word,
}
use faxchain.Evm.StateDb.View.{account_view, preimage_view, rest_view, Rest}
use faxchain.Evm.StateDb.WellFormed.{IsWell, HasObjects, HasRest, IsKept, AllKept}
use faxchain.Evm.Snapshot.{undo_entry, drop_last}
use faxchain.Evm.Snapshot.Undo.{UndoesTo, Appended, append_entry-Restores}
use faxchain.Evm.Snapshot.Accounts.{Reversible, Reversible-trans}
use faxchain.Evm.Snapshot.Operations.{Succeeds, same-Reversible}

drop_last-append : (ls : List Log) (l : Log) → drop_last (ls ++ l ∷ []) ≡ ls
unfolding drop_last
drop_last-append [] l = refl
drop_last-append (k ∷ []) l = refl
drop_last-append (k ∷ m ∷ ls) l = ap (◌∷◌ k) (drop_last-append (m ∷ ls) l)

-- An entry that dirties no account.
clean_step : (s : StateDb) (e : JournalEntry) → dirtied e ≡ none → IsWell s → Appended s e
unfolding append_entry
clean_step s e clean w = record {
  after = record s { entries = e ∷ s.entries };
  runs = rw clean;
  shape = refl;
  tracked = w.tracked;
  dropped = λ env t h. rw clean (ground arith);
}

module _ (env : Env) where
  -- A change of the rest of the state, with its entry.
  clean-Reversible :
      (s s' : StateDb) (e : JournalEntry)
      → dirtied e ≡ none
      → IsKept e
      → IsWell s
      → s'.entries ≡ e ∷ s.entries
      → s'.dirties ≡ s.dirties
      → s'.stores ≡ s.stores
      → s'.valid_revisions ≡ s.valid_revisions
      → HasObjects s'
      → HasRest s'
      → UndoesTo env e s' s
      → Reversible env s s'
  unfolding clean_step
  clean-Reversible s s' e clean k w he hd hs hv o r undo = record {
    restores = append_entry-Restores env s s' e (clean_step s e clean w) w he hd undo;
    well = record {
      objects = o;
      rest = r;
      tracked = subst IsTracked (sym hd) w.tracked;
      kept = subst AllKept (sym he) (k, w.kept);
    };
    stores = hs;
    revisions = hv;
  }

  refund-Reversible :
      (s : StateDb) (n : ℕ)
      → IsWell s
      → Reversible env s (record s { entries = refund_change s.refund ∷ s.entries; refund = n })
  unfolding undo_entry account_view preimage_view dirtied
  refund-Reversible s n w =
      clean-Reversible s _ (refund_change s.refund) refl tt w refl refl refl refl
        (record {
          indexed = w.objects.indexed;
          exact = w.objects.exact;
          at_home = w.objects.at_home;
        })
        (record {
          preimages_indexed = w.rest.preimages_indexed;
          preimages_exact = w.rest.preimages_exact;
          access_valid = w.rest.access_valid;
          log_word = w.rest.log_word;
        })
        (λ t ho hr ag. (
          record t { refund = s.refund },
          refl,
          record {
            accounts = ag.accounts;
            preimages = ag.preimages;
            rest = ap (λ (r : Rest). record r { refund = s.refund }) ag.rest;
            stores = ag.stores;
          },
          record { indexed = ho.indexed; exact = ho.exact; at_home = ho.at_home },
          record {
            preimages_indexed = hr.preimages_indexed;
            preimages_exact = hr.preimages_exact;
            access_valid = hr.access_valid;
            log_word = hr.log_word;
          },
          refl,
        ))

  pub add_refund-Succeeds : (s : StateDb) (gas : ℕ) → IsWell s → Succeeds env s (add_refund s gas)
  unfolding add_refund append_entry dirtied
  add_refund-Succeeds s gas w = (_, refl, refund-Reversible s ((s.refund + gas) % word) w)

  pub sub_refund-Reversible :
      (s s' : StateDb) (gas : ℕ) → IsWell s → sub_refund s gas ≡ some s' → Reversible env s s'
  unfolding sub_refund append_entry dirtied
  sub_refund-Reversible s s' gas w h = elim (Bool-cases (ltb s.refund gas)) [
    | inl short ↦ absurd (ground arith)
    | inr enough ↦ subst (Reversible env s) (ground arith) (refund-Reversible s (s.refund - gas) w)
  ]

  pub add_log-Succeeds : (s : StateDb) (body : List ℕ) → IsWell s → Succeeds env s (add_log s body)
  unfolding add_log append_entry dirtied undo_entry account_view preimage_view
  add_log-Succeeds s body w = (
    _,
    refl,
    clean-Reversible s _ (add_log_change s.thash) refl tt w refl refl refl refl
        (record {
          indexed = w.objects.indexed;
          exact = w.objects.exact;
          at_home = w.objects.at_home;
        })
        (record {
          preimages_indexed = w.rest.preimages_indexed;
          preimages_exact = w.rest.preimages_exact;
          access_valid = w.rest.access_valid;
          log_word = omega arith;
        })
        (λ t ho hr ag. (
          record t { logs = drop_last t.logs; log_size = (t.log_size + word - 1) % word },
          refl,
          record {
            accounts = ag.accounts;
            preimages = ag.preimages;
            rest =
                sym (
                  ap₂ (λ (ls : List Log) (n : ℕ). record (rest_view s) { logs = ls; log_size = n })
                    (drop_last-append s.logs _) (wraps s.log_size w.rest.log_word))
                ∙ ap
                    (λ (r : Rest). record r {
                      logs = drop_last r.logs;
                      log_size = (r.log_size + word - 1) % word;
                    })
                    ag.rest;
            stores = ag.stores;
          },
          record { indexed = ho.indexed; exact = ho.exact; at_home = ho.at_home },
          record {
            preimages_indexed = hr.preimages_indexed;
            preimages_exact = hr.preimages_exact;
            access_valid = hr.access_valid;
            log_word = omega arith;
          },
          refl,
        )),
  )
    where
      wraps : (n : ℕ) → n < word → ((n + 1) % word + word - 1) % word ≡ n
      wraps n h = omega arith

  module _ (s : StateDb) (hash : ℕ) (preimage : List ℕ) (w : IsWell s)
      (fresh : s.preimages.index hash ≡ none) where
    unseen : get s.preimages hash ≡ none
    unfolding get
    unseen = rw fresh

    preimage-Reversible : Reversible env s (record s {
      entries = add_preimage_change hash ∷ s.entries;
      preimages = put s.preimages hash preimage;
    })
    unfolding undo_entry account_view preimage_view dirtied
    preimage-Reversible =
        clean-Reversible s _ (add_preimage_change hash) refl tt w refl refl refl refl
          (record {
            indexed = w.objects.indexed;
            exact = w.objects.exact;
            at_home = w.objects.at_home;
          })
          (record {
            preimages_indexed = put-IsIndexed s.preimages hash preimage w.rest.preimages_indexed;
            preimages_exact =
                put-IsExact s.preimages hash preimage w.rest.preimages_indexed
                  w.rest.preimages_exact;
            access_valid = w.rest.access_valid;
            log_word = w.rest.log_word;
          })
          (λ t ho hr ag. (
            record t { preimages = remove t.preimages hash },
            refl,
            record {
              accounts = ag.accounts;
              preimages = λ h. ground (
                arith,
                unseen,
                ag.preimages h,
                get-put s.preimages hash h preimage w.rest.preimages_indexed,
                get-remove t.preimages hash h hr.preimages_indexed hr.preimages_exact,
              );
              rest = ag.rest;
              stores = ag.stores;
            },
            record { indexed = ho.indexed; exact = ho.exact; at_home = ho.at_home },
            record {
              preimages_indexed =
                  remove-IsIndexed t.preimages hash hr.preimages_indexed hr.preimages_exact;
              preimages_exact =
                  remove-IsExact t.preimages hash hr.preimages_indexed hr.preimages_exact;
              access_valid = hr.access_valid;
              log_word = hr.log_word;
            },
            refl,
          ))

  pub add_preimage-Succeeds :
      (s : StateDb) (hash : ℕ) (preimage : List ℕ)
      → IsWell s
      → Succeeds env s (add_preimage s hash preimage)
  unfolding add_preimage append_entry dirtied
  add_preimage-Succeeds s hash preimage w = elim (Option-cases (s.preimages.index hash)) [
    | inl fresh ↦ (_, rw fresh, preimage-Reversible s hash preimage w fresh)
    | inr (i, seen) ↦ (s, rw seen, same-Reversible env s w)
  ]

  -- An access list that its entry turns back.
  access-Reversible :
      (s : StateDb) (e : JournalEntry) (al : AccessList)
      → dirtied e ≡ none
      → IsKept e
      → IsWell s
      → Lifo.IsValid al
      → ((t : StateDb)
          → t.access_list ≡ al
          → undo_entry env t e ≡ some (record t { access_list = s.access_list }))
      → Reversible env s (record s { access_list = al; entries = e ∷ s.entries })
  unfolding account_view preimage_view
  access-Reversible s e al clean k w valid undone =
      clean-Reversible s _ e clean k w refl refl refl refl
        (record {
          indexed = w.objects.indexed;
          exact = w.objects.exact;
          at_home = w.objects.at_home;
        })
        (record {
          preimages_indexed = w.rest.preimages_indexed;
          preimages_exact = w.rest.preimages_exact;
          access_valid = valid;
          log_word = w.rest.log_word;
        })
        (λ t ho hr ag. (
          record t { access_list = s.access_list },
          undone t (sym (ap (λ (r : Rest). r.access_list) ag.rest)),
          record {
            accounts = ag.accounts;
            preimages = ag.preimages;
            rest = ap (λ (r : Rest). record r { access_list = s.access_list }) ag.rest;
            stores = ag.stores;
          },
          record { indexed = ho.indexed; exact = ho.exact; at_home = ho.at_home },
          record {
            preimages_indexed = hr.preimages_indexed;
            preimages_exact = hr.preimages_exact;
            access_valid = w.rest.access_valid;
            log_word = hr.log_word;
          },
          refl,
        ))

  address-Reversible :
      (s : StateDb) (a : ℕ)
      → IsWell s
      → s.access_list.addresses a ≡ none
      → Reversible env s (record s {
        access_list = record s.access_list {
          addresses = put_key a no_slots s.access_list.addresses;
        };
        entries = access_list_add_account_change a ∷ s.entries;
      })
  unfolding undo_entry dirtied delete_address
  address-Reversible s a w fresh =
      access-Reversible s (access_list_add_account_change a) _ refl tt w
        (Lifo.opened-IsValid s.access_list a w.rest.access_valid fresh)
        (λ t e. ground (arith, e, Lifo.delete_key-opened s.access_list a fresh))

  pub add_address_to_access_list-Succeeds :
      (s : StateDb) (a : ℕ) → IsWell s → Succeeds env s (add_address_to_access_list s a)
  unfolding add_address_to_access_list add_address append_entry dirtied
  add_address_to_access_list-Succeeds s a w = elim (Option-cases (s.access_list.addresses a)) [
    | inl fresh ↦ (_, rw fresh, address-Reversible s a w fresh)
    | inr (i, known) ↦ (s, rw known, same-Reversible env s w)
  ]

  slot-Reversible :
      (s : StateDb) (a slot : ℕ) (al : AccessList)
      → IsWell s
      → Lifo.IsValid al
      → delete_slot al a slot ≡ some s.access_list
      → Reversible env s
          (record s { access_list = al; entries = access_list_add_slot_change a slot ∷ s.entries })
  unfolding undo_entry dirtied
  slot-Reversible s a slot al w valid back =
      access-Reversible s (access_list_add_slot_change a slot) al refl tt w valid
        (λ t e. rw (e, back))

  -- A slot of an address that is in the list.
  slot_known :
      (s : StateDb) (a slot : ℕ) (r : AccessList × Bool × Bool)
      → IsWell s
      → r.1 ≡ false
      → Lifo.undo_slot a slot r ≡ some s.access_list
      → Lifo.IsValid r.0
      → Succeeds env s (
          append_if r.1 (access_list_add_account_change a) (record s { access_list = r.0 })
          >>= append_if r.2 (access_list_add_slot_change a slot))
  unfolding append_entry dirtied
  slot_known s a slot (al, true, c) w flag back valid = absurd (cc)
  slot_known s a slot (al, false, true) w flag back valid =
      (_, refl, slot-Reversible s a slot al w valid back)
  slot_known s a slot (al, false, false) w flag back valid =
      (s, ap (λ m. some (record s { access_list = m })) (some_inj back), same-Reversible env s w)

  slot_new :
      (s : StateDb) (a slot : ℕ)
      → IsWell s
      → s.access_list.addresses a ≡ none
      → Reversible env s (record s {
        access_list = open_slots s.access_list a slot;
        entries = access_list_add_slot_change a slot ∷ access_list_add_account_change a ∷ s.entries;
      })
  slot_new s a slot w fresh =
      let first = address-Reversible s a w fresh in
      Reversible-trans env s _ _ first (
        slot-Reversible _ a slot (open_slots s.access_list a slot) first.well
          (Lifo.open_slots-IsValid s.access_list a slot w.rest.access_valid)
          (Lifo.undo-open_slots s.access_list a slot))

  add_slot_at-Succeeds :
      (s : StateDb) (a slot : ℕ) (o : Option SlotIndex)
      → s.access_list.addresses a ≡ o
      → IsWell s
      → Succeeds env s (add_slot_to_access_list s a slot)
  unfolding add_slot_to_access_list add_slot append_entry dirtied
  add_slot_at-Succeeds s a slot none e w = (_, rw e, slot_new s a slot w e)
  add_slot_at-Succeeds s a slot (some i) e w =
      slot_known s a slot (add_slot s.access_list a slot) w
        (Lifo.known_flag s.access_list a slot i e)
        (Lifo.undo_slot-add_slot s.access_list a slot w.rest.access_valid)
        (Lifo.add_slot-IsValid s.access_list a slot w.rest.access_valid)

  pub add_slot_to_access_list-Succeeds :
      (s : StateDb) (a slot : ℕ) → IsWell s → Succeeds env s (add_slot_to_access_list s a slot)
  add_slot_to_access_list-Succeeds s a slot w =
      add_slot_at-Succeeds s a slot (s.access_list.addresses a) refl w
