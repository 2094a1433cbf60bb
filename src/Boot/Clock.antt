-- ===== src/Boot/Clock.antt =====
-- kernel/boot/src/rtc.rs: the time of a boot from the bytes of the clock's registers, and its row.
use asolaria_os.Prelude.{
  ℕ, ◌+◌, ◌*◌, ◌/◌, ◌%◌, ◌<◌, ◌≡◌, refl, [], ◌∷◌, ◌++◌, Bytes, bytes, bit_and, decimal, leb, ◌==◌,
  ==_iff, not, ◌&&◌, Bool, true, false, if◌then◌else◌,
}
use asolaria_os.Prelude.Bytewise.{every, every_sound}

pub record BootTime : Type 0 where
  pub year : ℕ
  pub month : ℕ
  pub day : ℕ
  pub hour : ℕ
  pub min : ℕ
  pub sec : ℕ
  pub tsc : ℕ

-- What `cmos_read` gave for each register that is read, and the tick; all are bytes but the tick.
pub record Registers : Type 0 where
  pub raw_sec : ℕ
  pub raw_min : ℕ
  pub raw_hour : ℕ
  pub raw_day : ℕ
  pub raw_month : ℕ
  pub raw_year : ℕ
  pub raw_century : ℕ
  pub status_b : ℕ
  pub tick : ℕ

abbrev pub bcd_to_bin : ℕ → ℕ
bcd_to_bin v = bit_and v 0x0F + v / 16 * 10

abbrev pub conv : Bool → ℕ → ℕ
conv is_bcd v = if is_bcd then bcd_to_bin v else v

-- The hour, with the flag of the afternoon in the highest bit of a 12-hour clock.
unfoldable pub hour_of : Bool → Bool → ℕ → ℕ
hour_of is_bcd is_12h raw_hour =
    let pm = is_12h && not (bit_and raw_hour 0x80 == 0) in
    let read = conv is_bcd (bit_and raw_hour 0x7F) in
    if is_12h then (if read == 12 then 0 else read) + (if pm then 12 else 0) else read

unfoldable pub read_boot_time : Registers → BootTime
unfolding hour_of
read_boot_time r =
    let is_bcd = bit_and (r.status_b) 0x04 == 0 in
    let is_12h = bit_and (r.status_b) 0x02 == 0 in
    let century = if not (r.raw_century == 0) then conv is_bcd (r.raw_century) else 20 in
    record {
      year = century * 100 + conv is_bcd (r.raw_year);
      month = conv is_bcd (r.raw_month);
      day = conv is_bcd (r.raw_day);
      hour = hour_of is_bcd is_12h (r.raw_hour);
      min = conv is_bcd (r.raw_min);
      sec = conv is_bcd (r.raw_sec);
      tsc = r.tick;
    }

abbrev pub put_2 : ℕ → Bytes
put_2 v = (48 + v / 10 % 10) ∷ (48 + v % 10) ∷ []

abbrev pub put_u4 : ℕ → Bytes
put_u4 v = (48 + v / 1000 % 10) ∷ (48 + v / 100 % 10) ∷ (48 + v / 10 % 10) ∷ (48 + v % 10) ∷ []

unfoldable pub write_utc : BootTime → Bytes
write_utc t =
    put_u4 (t.year)
    ++ (b'-' ∷ put_2 (t.month))
    ++ (b'-' ∷ put_2 (t.day))
    ++ (b'T' ∷ put_2 (t.hour))
    ++ (b':' ∷ put_2 (t.min))
    ++ (b':' ∷ put_2 (t.sec))
    ++ (b'Z' ∷ [])

unfoldable pub boottime_row : BootTime → Bytes
unfolding write_utc
boottime_row t =
    bytes "  BOOTTIME|utc="
    ++ write_utc t
    ++ bytes "|tsc="
    ++ decimal (t.tsc)
    ++ (bytes "|src=cmos_rtc+tsc|e=0|json=0" ++ (13 ∷ 10 ∷ []))

-- The byte that a clock in each of its four modes holds for an hour of the day.
abbrev to_bcd : ℕ → ℕ
to_bcd n = n / 10 * 16 + n % 10

abbrev held : Bool → Bool → ℕ → ℕ
held is_bcd is_12h h =
    let shown = if is_12h then (if h % 12 == 0 then 12 else h % 12) else h in
    (if is_bcd then to_bcd shown else shown) + (if is_12h && leb 12 h then 0x80 else 0)

hour_ok : Bool → Bool → ℕ → Bool
unfolding hour_of
hour_ok is_bcd is_12h h = hour_of is_bcd is_12h (held is_bcd is_12h h) == h

hour_table : (is_bcd is_12h : Bool) → every 24 (hour_ok is_bcd is_12h) ≡ true
unfolding every hour_ok
hour_table true true = refl
hour_table true false = refl
hour_table false true = refl
hour_table false false = refl

-- In each of the four modes of a clock the hour read is the hour of the day held.
hour_of-held :
    (is_bcd is_12h : Bool) (h : ℕ) → h < 24 → hour_of is_bcd is_12h (held is_bcd is_12h h) ≡ h
unfolding hour_ok
hour_of-held is_bcd is_12h h small =
    (==_iff _ h).0 (every_sound 24 (hour_ok is_bcd is_12h) h (hour_table is_bcd is_12h) small)
