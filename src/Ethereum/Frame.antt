-- ===== src/Ethereum/Frame.antt =====
-- What leaves the shared network records alone: one rule for each way to build a call, and the
-- methods of fm-demo/go-scripts/client/ethereum.go.
use chainlink_polkadot.Prelude.{
  ◌≡◌, refl, ◌∙◌, String, Option, none, some, ◌⊎◌, inl, inr, Bool, true, false, if◌then◌else◌,
}
use chainlink_polkadot.Errors.{Error}
use chainlink_polkadot.Program.{
  Outcome, ok, fail, panicked, blocked, M, proceed, ◌>>=◌, ◌>>◌, pure, or_throw,
}
use chainlink_polkadot.Config.{Heap}
use chainlink_polkadot.Crypto.{Crypto}
use chainlink_polkadot.Node.{Node, BigInt, TransactOpts}
use chainlink_polkadot.Wallets.{Wallet}
use chainlink_polkadot.Ethereum.Defs.{
  State, EthereumClient, lift_result, lift_error, call, check, read, catch, caught, attempt,
}
use chainlink_polkadot.Ethereum.Wait.{wait_for_transaction, unsubscribed, subscribed}
use chainlink_polkadot.Ethereum.Messages.{transaction_call_message, transaction_opts}
use chainlink_polkadot.Ethereum.Sending.{send_transaction, ContractDeployer, deploy_contract}

pub record Keeps {W A : Type 0} (m : M (State W) A) : Type 0 where
  pub at : (s : State W) → (m s).1.heap ≡ s.heap

module _ {W A : Type 0} where
  pub Keeps-pure : (a : A) → Keeps {W = W} (pure a)
  Keeps-pure a = record { at = λ s. refl }

  pub Keeps-or_throw : (x : Option Error) (a : A) → Keeps {W = W} (or_throw x a)
  Keeps-or_throw none a = record { at = λ s. refl }
  Keeps-or_throw (some e) a = record { at = λ s. refl }

  lift_result-heap : (r : (Error ⊎ A) × W) (s : State W) → (lift_result r s).1.heap ≡ s.heap
  lift_result-heap (inl e, w) s = refl
  lift_result-heap (inr a, w) s = refl

  pub Keeps-call : (f : W → (Error ⊎ A) × W) → Keeps (call f)
  Keeps-call f = record { at = λ s. lift_result-heap (f s.world) s }

  pub Keeps-check : (r : Error ⊎ A) → Keeps {W = W} (check r)
  Keeps-check (inl e) = record { at = λ s. refl }
  Keeps-check (inr a) = record { at = λ s. refl }

  pub Keeps-read : (f : Heap → Outcome A) → Keeps {W = W} (read f)
  Keeps-read f = record { at = λ s. refl }

  caught-heap : (r : Outcome A × State W) → (caught r).1.heap ≡ r.1.heap
  caught-heap (ok a, s) = refl
  caught-heap (fail e, s) = refl
  caught-heap (panicked, s) = refl
  caught-heap (blocked, s) = refl

  pub Keeps-catch : (m : M (State W) A) → Keeps m → Keeps (catch m)
  Keeps-catch m k = record { at = λ s. caught-heap (m s) ∙ k.at s }

  pub Keeps-if : (b : Bool) (m n : M (State W) A) → Keeps m → Keeps n → Keeps (if b then m else n)
  Keeps-if true m n k l = k
  Keeps-if false m n k l = l

module _ {W : Type 0} where
  lift_error-heap : (r : Option Error × W) (s : State W) → (lift_error r s).1.heap ≡ s.heap
  lift_error-heap (none, w) s = refl
  lift_error-heap (some e, w) s = refl

  pub Keeps-attempt : (f : W → Option Error × W) → Keeps (attempt f)
  Keeps-attempt f = record { at = λ s. lift_error-heap (f s.world) s }

module _ {W A B : Type 0} where
  proceed-heap :
      (r : Outcome A × State W) (f : A → M (State W) B)
      → ((a : A) → Keeps (f a))
      → (proceed r f).1.heap ≡ r.1.heap
  proceed-heap (ok a, s) f k = (k a).at s
  proceed-heap (fail e, s) f k = refl
  proceed-heap (panicked, s) f k = refl
  proceed-heap (blocked, s) f k = refl

  pub Keeps-bind :
      {m : M (State W) A} {f : A → M (State W) B}
      → Keeps m
      → ((a : A) → Keeps (f a))
      → Keeps (m >>= f)
  unfolding ◌>>=◌
  Keeps-bind {m} {f} k l = record { at = λ s. proceed-heap (m s) f l ∙ k.at s }

  pub Keeps-then : {m : M (State W) A} {n : M (State W) B} → Keeps m → Keeps n → Keeps (m >> n)
  unfolding ◌>>◌
  Keeps-then {m} {n} k l = record { at = λ s. proceed-heap (m s) (λ _. n) (λ _. l) ∙ k.at s }

module _ {C : Crypto} (N : Node C) (e : EthereumClient N.Client) where
  unsubscribed-heap :
      (r : Outcome (Unit {0}) × State N.World) → (unsubscribed N e r).1.heap ≡ r.1.heap
  unsubscribed-heap (ok _, s) = refl
  unsubscribed-heap (fail x, s) = refl
  unsubscribed-heap (panicked, s) = refl
  unsubscribed-heap (blocked, s) = refl

  Keeps-subscribed : (hash : N.Hash) → Keeps (subscribed N e hash)
  Keeps-subscribed hash = Keeps-bind (Keeps-read _) λ conf. record { at = λ s. refl }

  pub Keeps-wait_for_transaction : (hash : N.Hash) → Keeps (wait_for_transaction N e hash)
  unfolding wait_for_transaction
  Keeps-wait_for_transaction hash = Keeps-then (Keeps-attempt _) (record {
    at = λ s. unsubscribed-heap (subscribed N e hash s) ∙ (Keeps-subscribed hash).at s;
  })

  module _ (from : Wallet C) (to : C.Address) (value : BigInt) (payload : String) where
    Keeps-transaction_call_message : Keeps (transaction_call_message N e from to value payload)
    unfolding transaction_call_message
    Keeps-transaction_call_message =
        Keeps-bind (Keeps-call _) λ p. Keeps-bind (Keeps-read _) λ c. Keeps-pure _

    pub Keeps-transaction_opts : Keeps (transaction_opts N e from to value payload)
    unfolding transaction_opts
    Keeps-transaction_opts = Keeps-bind Keeps-transaction_call_message λ msg.
        Keeps-bind (Keeps-call _) λ n.
          Keeps-bind (Keeps-check _)
            λ k. Keeps-bind (Keeps-read _) λ i. Keeps-bind (Keeps-check _) λ o. Keeps-pure _

    pub Keeps-send_transaction : Keeps (send_transaction N e from to value payload)
    unfolding send_transaction
    Keeps-send_transaction = Keeps-bind Keeps-transaction_call_message λ msg.
        Keeps-bind (Keeps-check _) λ k. Keeps-bind (Keeps-call _) λ n.
          Keeps-bind (Keeps-read _) λ i. Keeps-bind (Keeps-check _) λ tx.
            Keeps-then (Keeps-attempt _) (
              Keeps-bind (Keeps-catch _ (Keeps-wait_for_transaction (N.tx_hash tx)))
                λ x. Keeps-pure _)

  pub Keeps-deploy_contract :
      {A : Type 0} (from : Wallet C) (deployer : ContractDeployer N e from A)
      → ((auth : TransactOpts C.Address N.Signer) → Keeps (deployer auth e.client))
      → Keeps (deploy_contract N e from deployer)
  unfolding deploy_contract
  Keeps-deploy_contract from deployer k = Keeps-bind (Keeps-transaction_opts from _ _ _) λ o.
      Keeps-bind (k o)
        λ (at, tx, i). Keeps-then (Keeps-wait_for_transaction (N.tx_hash tx)) (Keeps-pure _)
