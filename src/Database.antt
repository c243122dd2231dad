-- ===== src/Database.antt =====
-- The tables of oragami-backend/prisma/schema.prisma, and the calls of the Prisma client that the
-- services make. A table is the list of its rows, the newest first. Identifiers that the database
-- makes (`cuid()`) and the values of `now()` are arguments. Prisma itself is not modelled: a
-- `create` on a column marked `@unique` that holds the value already throws, as the schema says.
pub mod Tables
pub mod Laws
pub use Tables.*
