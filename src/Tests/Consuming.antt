-- ===== src/Tests/Consuming.antt =====
-- The consumer on a broker that has a message, then fails once, then has another one.
use ozon_final.Base.{ℕ, ◌≤◌, ◌≡◌, refl, eqb, leb, if◌then◌else◌}
use ozon_final.Errors.{text, ok, err}
use ozon_final.Consumer.{Fetched, Broker, new, returns, consume}
use ozon_final.Consumer.Printing.{Ends, messages, consume-returns}

abbrev fetched : ℕ → Fetched
fetched n = record { time = n; partition = 0; offset = n; key = "task"; value = "order a" }

abbrev broker : Broker
broker = record {
  done = λ n. leb 3 n;
  done_after = λ n. leb 3 n;
  read = λ n. if eqb n 1 then err (text "no leader") else ok (fetched n);
}

consume-returns_example :
    (last : ℕ) × ((last ≤ 3)
      × (Ends broker last
          × ((pauses : ℕ) × (consume broker 4 0 new
                ≡ returns
                    (record { printed = messages broker last 0; pauses = pauses; closes = 1 })))))
consume-returns_example = consume-returns broker 3 refl
