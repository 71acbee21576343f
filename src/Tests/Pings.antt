-- ===== src/Tests/Pings.antt =====
-- The pings of proto/http2/ping.rs with a clock that counts its readings, pings that are sent and
-- never answered, and a sleep that is always over.
use hwire.Base.{ℕ, suc, ◌+◌, ◌*◌, ◌-◌, true, some, ltb, ◌==◌, arith}
use hwire.Http2.Ping.{record_data, record_non_data, Outer, awaited, Config, new_config}
use hwire.Http2.Ping.Bdp.{Floats, Bdp, calculate}
use hwire.Http2.Ping.Growth.{Grows, calculate-Grows}
use hwire.Http2.Ping.Ponger.{Ponger, poll, channel}
use hwire.Http2.Ping.Run.{Run, here, data_read, other_read, IsPolled, Run-IsPolled}

abbrev outer : Outer
outer = record {
  World = ℕ;
  timer_now = λ w. (w, suc w);
  instant_now = λ w. (w, suc w);
  send = λ w. (true, w);
  poll_pong = λ w. (awaited, w);
  poll_sleep = λ w. (true, w);
  reset = λ w at. w;
  sleep = λ w at. w;
  wake = λ w. w;
}

abbrev counts : Floats
counts = record {
  F = ℕ;
  from_nat = λ n. n;
  add = λ a b. a + b;
  sub = λ a b. a - b;
  mul = λ a b. a * b;
  div = λ a b. a;
  same = λ a b. a == b;
  less = ltb;
  eighth = 1;
  one_and_half = 1;
}

abbrev config : Config
config = new_config true 65535 (some 10) 20 true

abbrev start : Ponger outer counts
start = channel outer counts config 0

abbrev fed : Ponger outer counts
fed = record start { locked = record_data outer 1000 start.locked }

abbrev read_on : Ponger outer counts
read_on = record fed { locked = record_non_data outer fed.locked }

calls : Run outer counts start read_on
calls = other_read (data_read here 1000)

Run-IsPolled_example : IsPolled outer counts (poll outer counts 3 read_on)
Run-IsPolled_example = Run-IsPolled outer counts config 0 calls 3

abbrev estimate : Bdp counts
estimate = record {
  bdp = 65535;
  max_bandwidth = 0;
  rtt = 0;
  ping_delay = 100000000;
  stable_count = 0;
}

calculate-Grows_example :
    Grows counts estimate
      (calculate counts 60000 5000 estimate).0
      (calculate counts 60000 5000 estimate).1
calculate-Grows_example =
    calculate-Grows counts 60000 5000 estimate
      (record { low = omega arith; high = omega arith; delay = omega arith; count = omega arith })
      (omega arith)
