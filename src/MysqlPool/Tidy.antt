-- ===== src/MysqlPool/Tidy.antt =====
-- Pools that internal/services/mysql.go has opened: one is in use at most, and the others are closed.
use velocity_engine_backend.Prelude.{
  ℕ, ◌<◌, ◌≡◌, refl, sym, ap, ◌∙◌, ◌⊎◌, inl, inr, Bool, true, false, ◌||◌, List, [], ◌∷◌, Option,
  none, some, comparable_nat, Bool-cases, Option-cases, arith, nat_beq, nat_beq_iff,
}
use velocity_engine_backend.MysqlPool.{
  Pool, Server, get_mysql_db, reset_mysql_conn, ping_again, is_mysql_ready, check_tables,
  verify_mysql_schema, Call, connect, check_ready, reset, close, verify, call, call_all,
}

abbrev pub is_closed : ℕ → List ℕ → Bool
is_closed n [] = false
is_closed n (m ∷ ms) = nat_beq m n || is_closed n ms

-- `mysqlDB` is open and has answered; every other pool that was opened is closed.
pub record IsTidy (server : Server) (p : Pool) : Type 0 where
  pub live :
      (n : ℕ)
      → p.db ≡ some n
      → (n < p.opened) × (is_closed n p.closed ≡ false) × (server.pings n ≡ true)
  pub others :
      (n : ℕ)
      → n < p.opened
      → server.opens n ≡ true
      → (p.db ≡ some n) ⊎ (is_closed n p.closed ≡ true)
  pub past : (n : ℕ) → is_closed n p.closed ≡ true → n < p.opened

reset_mysql_conn-IsTidy :
    (server : Server) (p : Pool) → IsTidy server p → IsTidy server (reset_mysql_conn p)
unfolding reset_mysql_conn
reset_mysql_conn-IsTidy server p v = elim (Option-cases p.db) [
  | inl q ↦ rw (reset_mysql_conn, q) v
  | inr (m, q) ↦
      rw (reset_mysql_conn, q)
        (record {
          live = λ n e. absurd (ground arith);
          others = λ n l o. inr (elim (v.others n l o) [
            | inl e ↦ ground (arith, nat_beq_iff m n)
            | inr c ↦ ground arith
          ]);
          past = λ n c. ground (arith, nat_beq_iff m n, v.past n, v.live m);
        })
]

get_mysql_db-IsTidy :
    (server : Server) (p : Pool) → IsTidy server p → IsTidy server (get_mysql_db server p).1
unfolding get_mysql_db
get_mysql_db-IsTidy server p v = elim (Option-cases p.db) [
  | inr (m, q) ↦ rw (get_mysql_db, q) v
  | inl q ↦ elim (Bool-cases (server.opens p.opened)) [
    | inr o ↦
        rw (get_mysql_db, q, o)
          (record {
            live = λ n e. absurd (ground arith);
            others = λ n l h. elim (Bool-cases (nat_beq n p.opened)) [
              | inl e ↦
                  absurd
                    (ground (arith, nat_beq_iff n p.opened, ap server.opens {x = n} {y = p.opened}))
              | inr e ↦ elim (v.others n (ground (arith, nat_beq_iff n p.opened)) h) [
                | inl c ↦ absurd (ground arith)
                | inr c ↦ inr c
              ]
            ];
            past = λ n c. omega (arith, v.past n c);
          })
    | inl o ↦ elim (Bool-cases (server.pings p.opened)) [
      | inr g ↦
          rw (get_mysql_db, q, o, g)
            (record {
              live = λ n e. absurd (ground arith);
              others = λ n l h. elim (Bool-cases (nat_beq p.opened n)) [
                | inl e ↦ inr (ground arith)
                | inr e ↦ elim (v.others n (ground (arith, nat_beq_iff p.opened n)) h) [
                  | inl c ↦ absurd (ground arith)
                  | inr c ↦ inr (ground arith)
                ]
              ];
              past = λ n c. ground (arith, nat_beq_iff p.opened n, v.past n);
            })
      | inl g ↦
          rw (get_mysql_db, q, o, g)
            (record {
              live = λ n e.
                  let same : p.opened ≡ n = ground arith in
                  (
                    omega arith,
                    elim (Bool-cases (is_closed n p.closed)) [
                      | inr c ↦ c
                      | inl c ↦ absurd (omega (arith, v.past n c))
                    ],
                    ap server.pings (sym same) ∙ g,
                  );
              others = λ n l h. elim (Bool-cases (nat_beq p.opened n)) [
                | inl e ↦ inl (ground (arith, nat_beq_iff p.opened n))
                | inr e ↦ elim (v.others n (ground (arith, nat_beq_iff p.opened n)) h) [
                  | inl c ↦ absurd (ground arith)
                  | inr c ↦ inr c
                ]
              ];
              past = λ n c. omega (arith, v.past n c);
            })
    ]
  ]
]

ping_again-IsTidy :
    (server : Server) (got : Option ℕ × Pool)
    → IsTidy server got.1
    → IsTidy server (ping_again server got).1
unfolding ping_again
ping_again-IsTidy server (none, p) v = v
ping_again-IsTidy server (some n, p) v = elim (Bool-cases (server.still n)) [
  | inl q ↦ rw (ping_again, q) v
  | inr q ↦ rw (ping_again, q) (reset_mysql_conn-IsTidy server p v)
]

check_tables-pool : (server : Server) (got : Option ℕ × Pool) → (check_tables server got).1 ≡ got.1
unfolding check_tables
check_tables-pool server (none, p) = refl
check_tables-pool server (some n, p) = elim (Option-cases (server.tables n)) [
  | inl q ↦ rw (check_tables, q) refl
  | inr (names, q) ↦ rw (check_tables, q) refl
]

call-IsTidy :
    (server : Server) (c : Call) (p : Pool) → IsTidy server p → IsTidy server (call server c p)
unfolding call is_mysql_ready verify_mysql_schema
call-IsTidy server connect p v = get_mysql_db-IsTidy server p v
call-IsTidy server check_ready p v =
    ping_again-IsTidy server (get_mysql_db server p) (get_mysql_db-IsTidy server p v)
call-IsTidy server reset p v = reset_mysql_conn-IsTidy server p v
call-IsTidy server close p v = reset_mysql_conn-IsTidy server p v
call-IsTidy server verify p v =
    rw (check_tables-pool server (get_mysql_db server p)) (get_mysql_db-IsTidy server p v)

-- Whatever is called, in any order, and whether or not MySQL answers: the pool in use has answered and is
-- not closed, and every other pool that was opened is closed.
pub call_all-IsTidy :
    (server : Server) (calls : List Call) (p : Pool)
    → IsTidy server p
    → IsTidy server (call_all server calls p)
unfolding call_all
call_all-IsTidy server [] p v = v
call_all-IsTidy server (c ∷ cs) p v =
    call_all-IsTidy server cs (call server c p) (call-IsTidy server c p v)
