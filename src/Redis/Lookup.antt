-- ===== src/Redis/Lookup.antt =====
-- nc_redis.c: the comparisons by which `redis_parse_req` finds the type of a command.
use Prim.Native.Nat.{bit_xor}
use wx_cache_proxy.Base.{
  ℕ, Bool, true, false, List, [], ◌∷◌, Option, none, some, ◌==◌, ◌&&◌, ◌||◌, if◌then◌else◌, length,
}
use wx_cache_proxy.Redis.Command.{
  Row, row, commands_of_3, commands_of_4, commands_of_5, commands_of_6, commands_of_7,
  commands_of_8, commands_of_9, commands_of_10, commands_of_11, commands_of_12, commands_of_13,
  commands_of_14, commands_of_15, commands_of_16,
}

-- `str3icmp` to `str16icmp`: each byte is the letter or the letter with bit 0x20 flipped.
unfoldable pub icmp : List ℕ → List ℕ → Bool
icmp [] [] = true
icmp (b ∷ m) (c ∷ cs) = (b == c || b == bit_xor c 0x20) && icmp m cs
icmp _ _ = false

-- The first branch whose comparison holds.
unfoldable pub find_row : List Row → List ℕ → Option Row
find_row [] m = none
find_row (row name kind noforward quit ∷ rows) m =
    let later = find_row rows m in
    if icmp m name then some (row name kind noforward quit) else later

-- `switch (p - m)`
unfoldable pub commands : ℕ → List Row
commands n =
    if n == 3
    then commands_of_3
    else if n == 4
    then commands_of_4
    else if n == 5
    then commands_of_5
    else if n == 6
    then commands_of_6
    else if n == 7
    then commands_of_7
    else if n == 8
    then commands_of_8
    else if n == 9
    then commands_of_9
    else if n == 10
    then commands_of_10
    else if n == 11
    then commands_of_11
    else if n == 12
    then commands_of_12
    else if n == 13
    then commands_of_13
    else if n == 14
    then commands_of_14
    else if n == 15
    then commands_of_15
    else if n == 16
    then commands_of_16
    else []

unfoldable pub find_command : List ℕ → Option Row
find_command m = find_row (commands (length m)) m
