-- ===== src/Swap.antt =====
-- packages/rfq/src/rfq.ts: the terms of an atomic swap that a solver signs, as bytes. SHA-256, the
-- bytes of a hexadecimal text and of a UTF-8 text are functions.
pub mod Binding
mod Tests
use shade.Shared.{ℕ, zero, suc, ◌*◌, ◌/◌, ◌%◌, String, List, [], ◌∷◌, ◌++◌}

abbrev pub price_scale : ℕ
price_scale = 1000000000

-- The loop of `i128beBytes` from the last byte on, in front of the bytes that are set.
unfoldable pub be_bytes_from : ℕ → ℕ → List ℕ → List ℕ
be_bytes_from zero x bytes = bytes
be_bytes_from (suc i) x bytes = be_bytes_from i (x / 256) (x % 256 ∷ bytes)

unfoldable pub i128_be_bytes : ℕ → List ℕ
unfolding be_bytes_from
i128_be_bytes v = be_bytes_from 16 v []

pub record AtomicSwapTerms : Type 0 where
  pub quote_hash : List ℕ
  pub output_asset_id : List ℕ
  pub quoted_output : ℕ
  pub min_output : ℕ
  pub price_scaled : ℕ
  pub recipient : String

-- The bytes that `atomicSwapHash` hashes; `recipient_hash` is `recipientHashBytes`.
unfoldable pub swap_bytes : (String → List ℕ) → AtomicSwapTerms → List ℕ
unfolding i128_be_bytes
swap_bytes recipient_hash t =
    t.quote_hash
    ++ (t.output_asset_id
        ++ (i128_be_bytes t.quoted_output
            ++ (i128_be_bytes t.min_output
                ++ (i128_be_bytes t.price_scaled ++ recipient_hash t.recipient))))

-- `quotedFromPrice`
unfoldable pub quoted_from_price : ℕ → ℕ → ℕ
quoted_from_price input_amount7dp price_scaled = input_amount7dp * price_scaled / price_scale
