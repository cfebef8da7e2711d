-- ===== src/Subscription/Tests.antt =====
-- Runs of the subscriptions at concrete topics.
use exchange_server.Base.{ℕ, [], ◌∷◌, ◌≡◌, refl}
use exchange_server.Text.{Text, codes}
use exchange_server.Subscription.{Topics, unsubscribe_all}
use exchange_server.DealsBuffer.{DealRecord, new_deals_buffer, add_record}
use exchange_server.DealsBuffer.Ordered.{IsOrdered, add_records, add_records-IsOrdered}

abbrev btc : Text
btc = codes "BTC"

abbrev eth : Text
eth = codes "ETH"

abbrev topics : Topics
topics = (btc, 1 ∷ 2 ∷ []) ∷ (eth, 2 ∷ []) ∷ []

leave : unsubscribe_all 2 topics ≡ (btc, 1 ∷ []) ∷ []
unfolding unsubscribe_all
leave = refl

abbrev record_of : ℕ → DealRecord
record_of id = record {
  id = id;
  time = id;
  type = codes "buy";
  amount = codes "1";
  price = codes "2";
}

add_records-IsOrdered_example :
    IsOrdered (add_records (record_of 3 ∷ record_of 2 ∷ record_of 7 ∷ []) (new_deals_buffer 100))
add_records-IsOrdered_example =
    add_records-IsOrdered (record_of 3 ∷ record_of 2 ∷ record_of 7 ∷ []) 100

add_record-buffer :
    add_record (record_of 9) (add_record (record_of 2) (new_deals_buffer 1))
    ≡ record { records = record_of 9 ∷ []; last_id = 9; max_size = 1 }
unfolding add_record new_deals_buffer
add_record-buffer = refl
