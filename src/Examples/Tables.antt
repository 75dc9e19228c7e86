-- ===== src/Examples/Tables.antt =====
-- The tables of transactions and the response contexts at work.
use tjsip.Base.{ℕ, ◌≡◌, ◌↔◌, refl, true, false, none, some, [], ◌∷◌, codes, arith, inl}
use tjsip.Base.Classes.{bytes_beq, nat_eq}
use tjsip.Base.Assoc.{lookup, insert, delete, is_empty}
use tjsip.Base.Outcome.{transaction_duplicated, ok}
use tjsip.Base.Text.{split_2}
use tjsip.Message.{Message, method_invite, method_cancel}
use tjsip.Message.Generate.{generate_cancel_request}
use tjsip.Message.Via.{top_most}
use tjsip.Message.Via
use tjsip.Message.Headers
use tjsip.Base.Text.{canonical}
use tjsip.Transaction.Key.{
  ClientTransactionKey, ServerTransactionKey, client_key_beq, server_key_beq, update_method,
  generate_server_transaction_key,
}
use tjsip.Transaction.Key.Match.{generate_cancel_request-key}
use tjsip.Contexts.{ResponseCtxs, new_response_ctxs, add, remove, get_st_from_ct, children}
use tjsip.Contexts.Consistent.{IsConsistent, add-IsConsistent, remove-IsConsistent, remove_last_iff}
use tjsip.Contexts.TimerC
use tjsip.Contexts.TimerC.{
  TimerCHandlers, new_timer_c_handlers, IsPaired, add-IsPaired, remove-IsPaired, get-add,
  get-remove,
}
use tjsip.Server.{register_server_transaction}
use tjsip.Server.Tables.{register_server_transaction-duplicate}
use tjsip.Examples.{one_parameter, invite, top_via, empty_message, first_cseq}

abbrev invite_key : ServerTransactionKey
invite_key = record { via_branch = codes "z2"; sent_by = codes "b"; method = method_invite }

abbrev fork_1 : ClientTransactionKey
fork_1 = record { via_branch = codes "z3"; cseq_method = method_invite }

abbrev fork_2 : ClientTransactionKey
fork_2 = record { via_branch = codes "z4"; cseq_method = method_invite }

invite_key_made : generate_server_transaction_key one_parameter invite ≡ ok invite_key
unfolding generate_server_transaction_key top_most split_2 empty_message lookup bytes_beq
invite_key_made = refl

abbrev cancel : Message
cancel = record invite {
  method = method_cancel;
  via = some (record { header = top_via ∷ [] });
  cseq = some (record first_cseq { method = method_cancel });
  body = none;
}

cancel_made : generate_cancel_request invite ≡ ok cancel
unfolding generate_cancel_request top_most Via.insert empty_message Headers.del canonical delete
    bytes_beq
cancel_made = refl

generate_cancel_request-key_example :
    (generate_server_transaction_key one_parameter cancel
      ≡ ok (update_method invite_key method_cancel))
    × (update_method (update_method invite_key method_cancel) method_invite ≡ invite_key)
generate_cancel_request-key_example =
    generate_cancel_request-key one_parameter invite cancel invite_key cancel_made invite_key_made

new_response_ctxs-IsConsistent : IsConsistent new_response_ctxs
unfolding get_st_from_ct children lookup
new_response_ctxs-IsConsistent = record {
  forward = λ ct st h. absurd (ground arith);
  backward = λ ct st h. absurd (ground arith);
  inhabited = λ st cts h. absurd (ground arith);
}

add-IsConsistent_example : IsConsistent (add new_response_ctxs invite_key fork_1).0
add-IsConsistent_example =
    add-IsConsistent new_response_ctxs invite_key fork_1 new_response_ctxs-IsConsistent
      (inl (unfold get_st_from_ct lookup in refl))

abbrev forked : ResponseCtxs
forked = (add (add new_response_ctxs invite_key fork_1).0 invite_key fork_2).0

forked-IsConsistent : IsConsistent forked
forked-IsConsistent =
    add-IsConsistent (add new_response_ctxs invite_key fork_1).0 invite_key fork_2
      (add-IsConsistent new_response_ctxs invite_key fork_1 new_response_ctxs-IsConsistent
        (inl (unfold get_st_from_ct lookup in refl)))
      (inl (unfold get_st_from_ct add lookup insert client_key_beq bytes_beq in refl))

remove-IsConsistent_example : IsConsistent (remove forked fork_1).0
remove-IsConsistent_example = remove-IsConsistent forked fork_1 forked-IsConsistent

forked-bound : get_st_from_ct forked fork_1 ≡ some invite_key
unfolding get_st_from_ct add lookup insert client_key_beq bytes_beq
forked-bound = refl

remove_last_iff_example :
    ((remove forked fork_1).1.remove_server_transaction ≡ true)
    ↔ ((x : ClientTransactionKey) → get_st_from_ct forked x ≡ some invite_key → x ≡ fork_1)
remove_last_iff_example = remove_last_iff forked fork_1 forked-IsConsistent invite_key forked-bound

-- The first of two forked transactions does not end the server transaction; the second one does.
removals :
    ((remove forked fork_1).1.remove_server_transaction ≡ false)
    × ((remove (remove forked fork_1).0 fork_2).1.remove_server_transaction ≡ true)
unfolding remove add children lookup insert delete is_empty client_key_beq server_key_beq bytes_beq
removals = (refl, refl)

new_timer_c_handlers-IsPaired : IsPaired new_timer_c_handlers
unfolding lookup
new_timer_c_handlers-IsPaired = record { pair = λ k. refl }

abbrev one_timer : TimerCHandlers
one_timer = (TimerC.add new_timer_c_handlers fork_1).0

one_timer-IsPaired : IsPaired one_timer
one_timer-IsPaired = add-IsPaired new_timer_c_handlers fork_1 new_timer_c_handlers-IsPaired

-- A table of numbers, each of which is its own key.
abbrev own_key : ℕ → ℕ
own_key n = n

register_server_transaction-duplicate_example :
    ((register_server_transaction own_key ((4, 4) ∷ []) 4).1 ≡ some transaction_duplicated)
    × (lookup 4 (register_server_transaction own_key ((4, 4) ∷ []) 4).0 ≡ none)
    × (lookup 4 (register_server_transaction own_key ((4, 4) ∷ []) 4).0 ≡ none)
unfolding lookup
register_server_transaction-duplicate_example =
    register_server_transaction-duplicate own_key ((4, 4) ∷ []) 4 4 4 refl
