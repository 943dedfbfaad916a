-- ===== src/Task/Tests.antt =====
-- task.cc: promises of numbers, with exceptions that are numbers.
use jowi_asio.Base.{ℕ, true, false, none, some, []}
use jowi_asio.Awaitable.Concepts.{CppType, other}
use jowi_asio.Task.Concepts.{}
use jowi_asio.Task.{value_of, PromiseState}
use jowi_asio.Task.Promise.{Settling}

-- A type of the program.
abbrev account : CppType
account = other false false 7

-- What a move leaves of a number.
abbrev moved : ℕ → ℕ
moved x = 0

abbrev fresh : PromiseState ℕ ℕ
fresh = record { complete = false; v = none }

abbrev fresh_void : PromiseState ℕ (Unit {0})
fresh_void = record { complete = false; v = none }

abbrev settled : Settling ℕ ℕ
settled = record { promise = record { complete = true; v = some (value_of 7) }; pending = [] }
