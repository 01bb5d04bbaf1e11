-- ===== src/Driver/Tests/Whole.antt =====
-- One request through the whole exchange, at concrete values.
use linber.Driver.Exchange.{Setting}
use linber.Driver.Tests.{calm, uri, asks, begins, ends, service, small}

abbrev setting : Setting
setting = record {
  client = calm 3 0;
  worker = calm 2 10;
  uri = uri;
  state = small;
  ser_node = 1002;
  base = 0;
  service = service;
  asks = asks;
  begins = begins;
  ends = ends;
}
