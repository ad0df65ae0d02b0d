-- ===== src/Tests/Waits.antt =====
-- Waiting for a transaction.
use chainlink_polkadot.Prelude.{
  ℕ, ◌+◌, ◌≤◌, ◌≡◌, refl, arith, none, inr, true, false, List, [], ◌∷◌,
}
use chainlink_polkadot.Prelude.Int.{pos, ◌≤ℤ◌}
use chainlink_polkadot.Errors.{wait_timeout}
use chainlink_polkadot.Program.{◌>>=◌, ◌>>◌, ok, fail}
use chainlink_polkadot.Node.{Node, Wake, header, timer, sub_error}
use chainlink_polkadot.Network
use chainlink_polkadot.Ethereum.Wait.{is_tx_confirmed, on_header, wait_loop, wait_for_transaction}
use chainlink_polkadot.Ethereum.Wait.Loop.{Waiting, here, confirmed, Returns, met}
use chainlink_polkadot.Ethereum.Wait.Confirmed.{wait_for_transaction-headers}
use chainlink_polkadot.Ethereum.Wait.Progress.{wait_loop_returns}
use chainlink_polkadot.Ethereum.Wait.Result.{wait_for_transaction_lem}
use chainlink_polkadot.Tests.Fixtures.{crypto, node, network_config, client, state}

-- From the ninth call on: the first header finds the transaction confirmed.
abbrev headers : List Wake
headers = header 1 ∷ header 2 ∷ header 3 ∷ []

two_headers : wait_loop node "cl" 8 network_config 0 headers 9 ≡ (ok tt, header 3 ∷ [], 13)
unfolding wait_loop on_header is_tx_confirmed
two_headers = refl

timer_pending :
    wait_loop node "cl" 8 network_config 0 (timer ∷ headers) 2
    ≡ (fail (wait_timeout (pos 300)), headers, 3)
unfolding wait_loop is_tx_confirmed
timer_pending = refl

-- A subscription that is closed without an error ends the wait without one, confirmed or not.
closed_early :
    wait_loop node "cl" 8 network_config 0 (sub_error none ∷ headers) 2 ≡ (ok tt, headers, 2)
unfolding wait_loop
closed_early = refl

first_round : on_header node "cl" 8 1 9 ≡ (inr true, 11)
unfolding on_header is_tx_confirmed
first_round = refl

second_round : on_header node "cl" 8 2 11 ≡ (inr true, 13)
unfolding on_header is_tx_confirmed
second_round = refl

early_round : on_header node "cl" 8 1 2 ≡ (inr false, 4)
unfolding on_header is_tx_confirmed
early_round = refl

one_confirmation : Waiting node "cl" 8 network_config 0 1 (header 1 ∷ []) 9 11
one_confirmation = confirmed first_round refl here

enough : Returns node "cl" 8 network_config 1 (header 2) 11 (ok tt) 13
enough = met second_round refl

wait_for_transaction_lem_example :
    wait_for_transaction node client 8 (state 8 headers) ≡ (ok tt, state 113 (header 3 ∷ []))
unfolding Network.config
wait_for_transaction_lem_example =
    wait_for_transaction_lem node client 8 (state 8 headers) (header 3 ∷ []) refl refl refl
      one_confirmation enough

-- A node that has every transaction in a block.
abbrev quick_node : Node crypto
quick_node = record node { transaction_by_hash = λ cl hash w. (inr false, w + 1) }

wait_loop_returns_example :
    (rest : List Wake) × (u : ℕ) × (wait_loop quick_node "cl" 8 network_config 0 headers 0
      ≡ (ok tt, rest, u))
unfolding on_header is_tx_confirmed
wait_loop_returns_example =
    wait_loop_returns quick_node "cl" 8 network_config headers 0 (λ number v. refl) tt (omega arith)
      (omega arith)

whole_call :
    wait_for_transaction node client 8 (state 8 headers) ≡ (ok tt, state 113 (header 3 ∷ []))
unfolding wait_for_transaction wait_loop on_header is_tx_confirmed Network.config ◌>>=◌ ◌>>◌
whole_call = refl

wait_for_transaction-headers_example : (k : ℕ) × (1 ≤ k) × (pos 2 ≤ℤ pos k) × (k + 1 ≤ 3)
unfolding Network.config
wait_for_transaction-headers_example =
    wait_for_transaction-headers node client 8 (state 8 headers) (state 113 (header 3 ∷ [])) refl tt
      whole_call
