-- ===== src/Tests.antt =====
-- Runs of the models at concrete inputs, and the properties at inputs that meet their hypotheses.
mod MeterTests
mod GwTests
mod SplitterTests
mod XmodemTests
mod FlowTests
mod LeaseTests
mod SerialTests
mod SequenceTests
mod RunTests
mod FeedbackTests
mod Meter698Tests
mod ConcentratorTests
mod MinuteTests
mod ModuleLogTests
mod AutomationTests
mod PeriodTests
mod ResponderTests
mod ExpectTests
