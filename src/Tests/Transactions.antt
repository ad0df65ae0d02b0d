-- ===== src/Tests/Transactions.antt =====
-- Making and sending transactions.
use chainlink_polkadot.Prelude.{
  ℕ, ◌+◌, ◌≤◌, ◌≡◌, refl, ◌-◌, ◌^◌, String, none, some, [], ◌∷◌, inr, arith,
}
use chainlink_polkadot.Prelude.Int.{pos, negsuc, ◌≤ℤ◌}
use chainlink_polkadot.Errors.{foreign}
use chainlink_polkadot.Program.{ok, ◌>>=◌, ◌>>◌}
use chainlink_polkadot.Node.{Node, header, TransactOpts}
use chainlink_polkadot.Wallets.{wallet_address}
use chainlink_polkadot.Network
use chainlink_polkadot.Ethereum.Wait.{is_tx_confirmed, on_header, wait_loop, wait_for_transaction}
use chainlink_polkadot.Ethereum.Messages.{
  private_key, sender, transaction_call_message, transaction_opts,
}
use chainlink_polkadot.Ethereum.Messages.Fields.{transaction_opts_lem, transaction_opts_wraps}
use chainlink_polkadot.Ethereum.Sending.{send_transaction}
use chainlink_polkadot.Ethereum.Sending.Settled.{send_transaction-headers}
use chainlink_polkadot.Ethereum.Sending.Signed.{send_transaction_lem, reported}
use chainlink_polkadot.Tests.Fixtures.{crypto, node, client, wallet, state}

-- A node whose next nonce does not fit in an int64, and one that refuses every transaction.
abbrev late_node : Node crypto
late_node = record node { pending_nonce_at = λ cl a w. (inr (2 ^ 64 - 1), w) }

abbrev closed_node : Node crypto
closed_node = record node { send_transaction = λ cl tx w. (some (foreign "refused"), w) }

sent :
    send_transaction node client wallet "0xto"
      (some (pos 1))
      ""
      (state 8 (header 1 ∷ header 2 ∷ []))
    ≡ (ok (5, none), state 116 [])
unfolding ◌>>=◌ ◌>>◌ send_transaction transaction_call_message private_key sender wallet_address
    wait_for_transaction wait_loop on_header is_tx_confirmed Network.config Network.chain_id
sent = refl

transaction_opts_lem_example : transaction_opts node client wallet "0xto" none "" (state 0 []) ≡ (
  ok (record {
    from = "0xab";
    nonce = some (pos 5);
    signer = "ab";
    value = none;
    gas_price = some (pos 7);
    gas_limit = 1010000;
  }),
  state 2 [],
)
unfolding sender wallet_address private_key Network.config
transaction_opts_lem_example =
    transaction_opts_lem node client wallet "0xto" none "" (state 0 []) refl refl refl refl refl
      (omega arith) (omega arith)

transaction_opts_wraps_example :
    (o : TransactOpts String String) × (transaction_opts late_node client wallet "0xto" none ""
        (state 0 [])
      ≡ (ok o, state 1 []))
    × (o.nonce ≡ some (negsuc 0))
unfolding private_key Network.config
transaction_opts_wraps_example =
    transaction_opts_wraps late_node client wallet "0xto" none "" (state 0 []) refl refl refl refl
      refl (omega arith) (omega arith)

send_transaction_lem_example :
    send_transaction node client wallet "0xto" (some (pos 1)) "" (state 8 (header 1 ∷ []))
    ≡ reported node client wallet 5 (wait_for_transaction node client 5 (state 11 (header 1 ∷ [])))
unfolding private_key Network.config
send_transaction_lem_example =
    send_transaction_lem node client wallet "0xto" (some (pos 1)) "" (state 8 (header 1 ∷ [])) refl
      refl refl refl refl refl

send_transaction-headers_example : (k : ℕ) × (1 ≤ k) × (pos 2 ≤ℤ pos k) × (k + 0 ≤ 2)
unfolding private_key Network.config
send_transaction-headers_example =
    send_transaction-headers node client wallet "0xto" (some (pos 1)) ""
      (state 8 (header 1 ∷ header 2 ∷ [])) (state 116 []) refl refl refl refl refl refl tt sent
