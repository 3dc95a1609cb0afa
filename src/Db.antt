-- ===== src/Db.antt =====
-- The PostgreSQL tables of migrations/001_create_master_follower_tables.sql, and what a statement of
-- internal/repository can come to. A table is the list of its rows in the order of insertion.
pub mod Masters
pub mod Followers
use mt5_bridge.Prelude.{ℕ, String, Bool, List, leb}
use Prim.Native.String.{count as char_count}
use mt5_bridge.Models.{Master, Follower}

pub record Db (F : Type 0) : Type 0 where
  pub masters : List Master
  pub followers : List (Follower F)

-- The server answers the statement, or refuses it (or is not reached, or a row does not scan), or
-- carries it out and the count of affected rows is not available, or carries it out and its answer is
-- lost, so that the program gets an error. A transaction has the reply to its commit, if it comes to
-- it. The last two are about statements that write: a SELECT without an answer is `refused`.
pub data Reply : Type 0 where
  answered refused uncounted lost : Reply

-- internal/repository/errors.go. `failed` is any error that is made by `fmt.Errorf`.
pub data RepositoryError : Type 0 where
  not_found duplicate_account_id duplicate_follower invalid_input unauthorized : RepositoryError
  failed : RepositoryError

pub data Result (A : Type 0) : Type 0 where
  ok : A → Result A
  err : RepositoryError → Result A

-- A value fits a column of the type `VARCHAR(n)`.
abbrev pub varchar : ℕ → String → Bool
varchar n s = leb (char_count s) n
