-- ===== src/Models.antt =====
-- The tables of src/soriham_api/models.py, a record for each row type. Surrogate keys and
-- public ids are numbers, texts are `String`, a nullable column is an `Option`, an instant is a
-- number of seconds and an audio length a number of milliseconds. A column with a CHECK over a
-- fixed list of words is a data type with those words as its constructors.
mod Accounts
mod Access
mod Recordings
pub use Accounts.*
pub use Access.*
pub use Recordings.*
