-- ===== src/ClickHouse/Recovery.antt =====
-- The connection to ClickHouse: which errors are retryable, and that the next call opens it again.
use velocity_engine_backend.Prelude.{
  suc, ◌≡◌, refl, true, false, List, Option, none, some, ◌≢◌, arith,
}
use velocity_engine_backend.Json.{Row}
use velocity_engine_backend.Historical.{Fragment}
use velocity_engine_backend.ClickHouse.{
  Error, unavailable, other_error, ok, fail, Queried, refused, torn, scanned, Driver, Pool,
  is_table_name, get_click_house_db, rows_to_maps, conclude, send, proceed, read,
}

conclude-connected :
    (d : Driver) (p : Pool) (r : Queried)
    → (conclude d p r).0 ≡ fail unavailable
    → (conclude d p r).1.connected ≡ false
unfolding conclude
conclude-connected d p refused e = refl
conclude-connected d p torn e = absurd (ground arith)
conclude-connected d p (scanned rows) e = absurd (ground arith)

proceed-connected :
    (d : Driver) (q : Fragment) (error : Option Error) (p : Pool)
    → (error ≢ none → p.connected ≡ false)
    → (proceed d q (error, p)).0 ≡ fail unavailable
    → (proceed d q (error, p)).1.connected ≡ false
unfolding send
proceed-connected d q none p h e = conclude-connected d p (d.query p.sent q) e
proceed-connected d q (some x) p h e = h (λ n. absurd (ground arith))

get_click_house_db-connected :
    (d : Driver) (p : Pool)
    → (get_click_house_db d p).0 ≢ none
    → (get_click_house_db d p).1.connected ≡ false
unfolding get_click_house_db
get_click_house_db-connected d p h = ground arith

read-connected :
    (d : Driver) (q : Fragment) (p : Pool)
    → (read d q p).0 ≡ fail unavailable
    → (read d q p).1.connected ≡ false
unfolding read
read-connected d q p e =
    let (error, after) = get_click_house_db d p in
    proceed-connected d q _ _ (get_click_house_db-connected d p) e

read-fresh :
    (d : Driver) (q : Fragment) (p : Pool) (rows : List Row)
    → p.connected ≡ false
    → is_table_name d.table ≡ true
    → d.ping p.sent ≡ true
    → d.query (suc p.sent) q ≡ scanned rows
    → read d q p ≡ (ok (rows_to_maps d rows), record { connected = true; sent = suc (suc p.sent) })
unfolding read get_click_house_db send conclude
read-fresh d q p rows c t ping query = rw (c, t, ping, query) refl

-- After any read that ended with ErrClickHouseUnavailable, a read under a valid name for the table
-- pings first; if that ping and its query are answered, it gives the rows.
pub read-recovers :
    (d : Driver) (q next : Fragment) (p : Pool) (rows : List Row)
    → is_table_name d.table ≡ true
    → (read d q p).0 ≡ fail unavailable
    → d.ping (read d q p).1.sent ≡ true
    → d.query (suc (read d q p).1.sent) next ≡ scanned rows
    → read d next (read d q p).1 ≡ (
      ok (rows_to_maps d rows),
      record { connected = true; sent = suc (suc (read d q p).1.sent) },
    )
read-recovers d q next p rows t e ping query =
    read-fresh d next (read d q p).1 rows (read-connected d q p e) t ping query

-- Under a bad name for the table nothing is sent, the error is not the retryable one, and the pool is as before.
pub read-misconfigured :
    (d : Driver) (q : Fragment) (p : Pool)
    → p.connected ≡ false
    → is_table_name d.table ≡ false
    → read d q p ≡ (fail other_error, p)
unfolding read get_click_house_db
read-misconfigured d q p c t = rw (c, t) refl
