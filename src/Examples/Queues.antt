-- ===== src/Examples/Queues.antt =====
-- The queue of two orders is filled, lengthened and shortened.
use orderbook.Prelude.{some, ◌≡◌, refl, true, [], ◌∷◌, arith}
use orderbook.Pool.{invalid_index}
use orderbook.Pool.Chain.{Chain}
use orderbook.Pool.Reuse.{IsFree}
use orderbook.Ladder.{slot_ref, best_level, slot_to_price, LadderSide, advance_best, unlink}
use orderbook.Ladder.Best.{Advanced, advance_best-Advanced}
use orderbook.Ladder.Link.{Touches}
use orderbook.Ladder.Unlink.{unlink-Chain}
use orderbook.Book.Rounds.{Queue}
use orderbook.Examples.Data.{pool, level, side}

queue : Queue pool.nodes level (0 ∷ 1 ∷ [])
queue = ground arith

unlink-Chain_example :
    let (ns', lvl') = unlink pool.nodes level 1 in
    Chain ns' invalid_index lvl'.head lvl'.tail (0 ∷ []) × Touches ns' pool.nodes 1 (0 ∷ [])
unlink-Chain_example = unlink-Chain pool.nodes level 1 (0 ∷ []) [] queue

advance_best-Advanced_example :
    Advanced true side.ladder 1024 (advance_best side).best_slot
    × (advance_best side ≡ record side { best_slot = (advance_best side).best_slot })
advance_best-Advanced_example = advance_best-Advanced side (omega arith) true refl

advance_best-finds : (advance_best side).best_slot ≡ 1020
unfolding advance_best
advance_best-finds = refl

node_2 : IsFree pool (2 ∷ [])
node_2 = ground arith

-- The side with the queue of two orders at a price that is no multiple of the tick.
abbrev odd_side : LadderSide
odd_side = record side { overflow = (150, level) ∷ (250, level) ∷ [] }

-- The ladder's best slot is 1020 and beats the prices of the vector.
abbrev known_side : LadderSide
known_side = record odd_side { best_slot = 1020 }

best_level-is : best_level known_side ≡ some (102000, slot_ref 1020)
unfolding best_level slot_to_price
best_level-is = refl
