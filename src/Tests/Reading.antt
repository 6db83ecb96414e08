-- ===== src/Tests/Reading.antt =====
-- The rows of the two orders.
use ozon_final.Base.{refl}
use ozon_final.Postgres.Orders.{find_order}
use ozon_final.Storage.Reading.{Keyed}
use ozon_final.Tests.{calm, tables}

pub two-Keyed : Keyed calm tables.orders
unfolding find_order
two-Keyed = ((refl, refl), ((refl, refl), tt))
